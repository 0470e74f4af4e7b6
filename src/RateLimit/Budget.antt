-- ===== src/RateLimit/Budget.antt =====
-- How many requests of one client the buckets of internal/ratelimit/ratelimit.go can still let
-- through, and what one use of a bucket costs.

use custom_waf.Base.{
  ℕ, ◌+◌, ◌-◌, ◌*◌, ◌/◌, ◌≤◌, ◌<◌, ◌≡◌, refl, pos, Bool, true, false, Option, none, some, Bytes_eq,
  half_word, arith, ◌⊎◌, inl, inr, ℤ, String_eq, ℕ_eq, Bool-cases,
}
use native.Mathlib.Nat.{mul-le-mul_right}
use custom_waf.RateLimit.Types.{ClientBucket, second, minute}
use custom_waf.RateLimit.Bucket.{new_bucket, use_bucket}
use custom_waf.RateLimit.Refill.{earned, Used, use_bucket-Used}
use custom_waf.RateLimit.Limiter.{or_new, is_recent}
use custom_waf.Base.{keep_if}
use custom_waf.RateLimit.Frame.{SameTokens}

mul-add-le : (p q s r : ℕ) → p + q ≤ s → p * r + q * r ≤ s * r
mul-add-le p q s r h = omega (arith, mul-le-mul_right r h)

-- Waiting in two parts earns no more than waiting at once.
earned-add : (a b c rpm : ℕ) → a ≤ b → b ≤ c → earned b a rpm + earned c b rpm ≤ earned c a rpm
earned-add a b c rpm h k =
    mul-add-le ((b - a) / second) ((c - b) / second) ((c - a) / second) (rpm / 60) (omega arith)

-- With a limit of `rpm` and `burst`, at the time `now`, a client in this state is granted at most
-- `n` more requests until the time `end`.
abbrev pub Within : ℕ → ℕ → ℕ → Option ClientBucket → ℕ → ℕ → Type 0
Within rpm burst end none now n = (end - now < half_word) × (burst + earned end now rpm ≤ n)
Within rpm burst end (some b) now n =
    (t : ℕ) × (b.tokens ≡ pos t)
    × (t ≤ burst)
    × (b.last_refill ≤ now)
    × (b.last_refill ≤ b.last_request)
    × (end - b.last_refill < half_word)
    × (t + earned end b.last_refill rpm ≤ n)

-- The bucket was used at this time or later.
abbrev pub Since : ℕ → Option ClientBucket → Type 0
Since last none = Unit
Since last (some b) = last ≤ b.last_request

-- What a use costs: a grant, unless it is refused.
abbrev pub cost : Bool → ℕ
cost true = 0
cost false = 1

-- A use is the last request.
pub use_bucket_asked :
    (b : ClientBucket) (now : ℕ) (rpm burst : ℤ) → (use_bucket b now rpm burst).0.last_request ≡ now
unfolding use_bucket
use_bucket_asked b now rpm burst = ground arith

module _ (rpm burst end : ℕ) (rs : rpm < 2147483648) (bs : burst < 2147483648) where
  pub Within-new :
      (st : Option ClientBucket) (now now' n : ℕ)
      → now ≤ now'
      → now' ≤ end
      → Within rpm burst end st now n
      → Within rpm burst end (some (or_new st (new_bucket now' (pos burst)))) now' n
  unfolding new_bucket
  Within-new none now now' n h k w = (
    burst,
    refl,
    omega arith,
    omega arith,
    omega arith,
    omega arith,
    omega (arith, earned-add now now' end rpm h k),
  )
  Within-new (some b) now now' n h k (t, e, s, l, o, f, w) = (t, e, s, omega arith, o, f, w)

  -- One use of the bucket costs a grant, unless it is refused.
  pub Within-use :
      (b c : ClientBucket) (now n : ℕ)
      → now ≤ end
      → SameTokens c (use_bucket b now (pos rpm) (pos burst)).0
      → Within rpm burst end (some b) now n
      → let k = cost (use_bucket b now (pos rpm) (pos burst)).1 in
        (k ≤ n) × Within rpm burst end (some c) now (n - k)
  Within-use b c now n k same (t, e, s, l, o, f, w) = ground (
    arith,
    used.tokens,
    used.refilled,
    used.verdict,
    use_bucket_asked b now (pos rpm) (pos burst),
    earned-add b.last_refill now end rpm l k,
  )
    where
      used :
          Used b
            (use_bucket b now (pos rpm) (pos burst)).0
            (use_bucket b now (pos rpm) (pos burst)).1
            now
            t
            rpm
            burst
      used =
          use_bucket-Used b now t rpm burst e s
            (record { forward = l; short = omega arith; rpm_small = rs; burst_small = bs })

  pub Within-later :
      (st : Option ClientBucket) (now now' n : ℕ)
      → now ≤ now'
      → now' ≤ end
      → Within rpm burst end st now n
      → Within rpm burst end st now' n
  Within-later none now now' n h k w = (omega arith, omega (arith, earned-add now now' end rpm h k))
  Within-later (some b) now now' n h k (t, e, s, l, o, f, w) = (t, e, s, omega arith, o, f, w)

  -- A bucket that a cleanup drops would be full, where ten minutes earn the burst.
  pub Within-dropped :
      (b : ClientBucket) (now at n : ℕ)
      → now ≤ at
      → at ≤ end
      → burst ≤ 600 * (rpm / 60)
      → is_recent at b.last_request ≡ false
      → Within rpm burst end (some b) now n
      → Within rpm burst end none at n
  Within-dropped b now at n h k full old (t, e, s, l, o, f, w) =
      let wait : b.last_request + 10 * minute < at = ground arith in
      let secs : 600 ≤ (at - b.last_refill) / second = omega arith in
      let gain : 600 * (rpm / 60) ≤ earned at b.last_refill rpm =
        mul-le-mul_right (rpm / 60) secs in
      (omega arith, omega (arith, gain, earned-add b.last_refill at end rpm (omega arith) k))

  -- What a cleanup leaves of the client, who asked last at `last` or later.
  pub Within-kept :
      (st : Option ClientBucket) (now at n last : ℕ)
      → now ≤ at
      → at ≤ end
      → (burst ≤ 600 * (rpm / 60)) ⊎ (at ≤ last + 10 * minute)
      → Since last st
      → Within rpm burst end st now n
      → Within rpm burst end (keep_if (λ b. is_recent at b.last_request) st) at n
        × Since last (keep_if (λ b. is_recent at b.last_request) st)
  Within-kept none now at n last h k c s w = (Within-later none now at n h k w, tt)
  Within-kept (some b) now at n last h k c s w = elim (Bool-cases (is_recent at b.last_request)) [
    | inl y ↦ rw y (Within-later (some b) now at n h k w, s)
    | inr old ↦ elim c [
      | inl full ↦ rw old (Within-dropped b now at n h k full old w, tt)
      | inr asked ↦ absurd (ground arith)
    ]
  ]
