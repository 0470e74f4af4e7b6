-- ===== src/RateLimit/Refill.antt =====
-- Buckets of internal/ratelimit/ratelimit.go over plain numbers: what a refill and a request do to
-- the tokens, and the bound on what a client is granted.
use custom_waf.Base.{
  ℕ, ◌+◌, ◌-◌, ◌*◌, ◌/◌, ◌≤◌, ◌<◌, ◌≡◌, pos, arith, ltb, half_word, int64_pos, if◌then◌else◌,
  pos-sub, pos-add, quot_pos, pos-mul, int64, Bool, ◌-ℤ◌, leb,
}
use custom_waf.RateLimit.Types.{second, ClientBucket}
use custom_waf.RateLimit.Bucket.{tokens_to_add, capped_add, refill_tokens_with_config, use_bucket}

-- The tokens of so many whole seconds.
abbrev pub earned : ℕ → ℕ → ℕ → ℕ
earned now last rpm = (now - last) / second * (rpm / 60)

-- Limits below 2^31 and a wait that fits in a `time.Duration`: no overflow.
pub record InRange (now last rpm burst : ℕ) : Type 0 where
  pub forward : last ≤ now
  pub short : now - last < half_word
  pub rpm_small : rpm < 2147483648
  pub burst_small : burst < 2147483648

earned-small : (a b : ℕ) → a ≤ 9223372036 → b ≤ 35791394 → a * b ≤ 330117343809434504
earned-small a b h k = grind arith

pub tokens_to_add-earned :
    (now last rpm burst : ℕ)
    → InRange now last rpm burst
    → tokens_to_add now last (pos rpm) ≡ pos (earned now last rpm)
unfolding tokens_to_add
tokens_to_add-earned now last rpm burst r =
    rw (pos-sub now last r.forward, quot_pos, quot_pos, pos-mul)
      (int64_pos _ (
        omega (arith, earned-small ((now - last) / second) (rpm / 60) (omega arith) (omega arith))))

-- The tokens and the time of the last refill that a request finds.
abbrev pub filled : ℕ → ℕ → ℕ → ℕ
filled t add burst = if ltb 0 add then (if ltb burst (t + add) then burst else t + add) else t

capped_add_pos :
    (t add burst : ℕ)
    → t + add < half_word
    → capped_add (pos t) (pos add) (pos burst)
      ≡ pos (if ltb burst (t + add) then burst else t + add)
unfolding capped_add
capped_add_pos t add burst h = rw (pos-add, int64_pos (t + add) h) (ground arith)

-- The rest of a bucket after a request, with the answer.
pub record Used (b b' : ClientBucket) (blocked : Bool) (now t rpm burst : ℕ) : Type 0 where
  pub tokens : b'.tokens ≡ pos (filled t (earned now b.last_refill rpm) burst - 1)
  pub refilled :
      b'.last_refill ≡ (if ltb 0 (earned now b.last_refill rpm) then now else b.last_refill)
  pub verdict : blocked ≡ leb (filled t (earned now b.last_refill rpm) burst) 0

int64_pred : (n : ℕ) → 0 < n → n < half_word → int64 (pos n -ℤ pos 1) ≡ pos (n - 1)
int64_pred n p h = rw (pos-sub n 1 p) (int64_pos (n - 1) (omega arith))

module _ (b : ClientBucket) (now t rpm burst : ℕ) (h : b.tokens ≡ pos t) (small : t ≤ burst)
    (r : InRange now b.last_refill rpm burst) where
  abbrev e : ℕ
  e = earned now b.last_refill rpm

  e-small : t + e < half_word
  e-small =
      omega (
        arith,
        earned-small ((now - b.last_refill) / second) (rpm / 60) (omega arith) (omega arith),
      )

  refill_pos :
      refill_tokens_with_config b now (pos rpm) (pos burst)
      ≡ (if ltb 0 e then record b { tokens = pos (filled t e burst); last_refill = now } else b)
  unfolding refill_tokens_with_config
  refill_pos =
      ground (
        arith,
        tokens_to_add-earned now b.last_refill rpm burst r,
        capped_add_pos t e burst e-small,
      )

  pub use_bucket-Used :
      Used b
        (use_bucket b now (pos rpm) (pos burst)).0
        (use_bucket b now (pos rpm) (pos burst)).1
        now
        t
        rpm
        burst
  unfolding use_bucket
  use_bucket-Used = rw refill_pos (ground (arith, int64_pred (filled t e burst)))
