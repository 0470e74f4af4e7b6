-- ===== src/RateLimit/Runs.antt =====
-- Runs of the limiter of internal/ratelimit/ratelimit.go: requests, with rounds of its cleanup in
-- between.
use custom_waf.Base.{
  ℕ, suc, ◌+◌, ◌*◌, ◌/◌, ◌≤◌, ◌<◌, ◌≡◌, ◌⊎◌, Bool, false, not, ◌&&◌, none, some, List, [], ◌∷◌, pos,
  Bytes, Bytes_eq, String_eq, ℕ_eq, bytes_beq, if◌then◌else◌, lookup,
}
use custom_waf.Base.{Distinct}
use custom_waf.RateLimit.Match.{match_endpoint}
use custom_waf.RateLimit.Types.{RateLimitConfig, RateLimiter, LimitConfig, minute}
use custom_waf.RateLimit.Limiter.{is_rate_limited_with_route, effective, cleanup}

pub record Request : Type 0 where
  pub at : ℕ
  pub ip : Bytes
  pub route : Bytes

pub data LimiterOp : Type 0 where
  ask : Request → LimiterOp
  clean : ℕ → LimiterOp

-- The route is limited by the pattern.
unfoldable pub hits : RateLimitConfig → Bytes → Bytes → Bool
hits config key route = elim (match_endpoint config route) [
  | none ↦ false
  | some m ↦ bytes_beq m.1 key
]

-- The request is the client's, under the pattern.
abbrev pub is_own : RateLimitConfig → Bytes → Bytes → Request → Bool
is_own config key ip q = bytes_beq q.ip ip && hits config key q.route

-- The operations come in the order of their times, from `now` to `end`.
abbrev pub Ordered : ℕ → ℕ → List LimiterOp → Type 0
Ordered now end [] = Unit
Ordered now end (ask q ∷ os) = (now ≤ q.at) × (q.at ≤ end) × Ordered q.at end os
Ordered now end (clean at ∷ os) = (now ≤ at) × (at ≤ end) × Ordered at end os

-- No cleanup gives a token away: ten minutes earn no less than the burst, or else the client, who
-- asked last at `last`, has asked in the ten minutes before.
abbrev pub Spared : RateLimitConfig → Bytes → Bytes → ℕ → ℕ → ℕ → List LimiterOp → Type 0
Spared config key ip rpm burst last [] = Unit
Spared config key ip rpm burst last (ask q ∷ os) =
    Spared config key ip rpm burst (if is_own config key ip q then q.at else last) os
Spared config key ip rpm burst last (clean at ∷ os) =
    ((burst ≤ 600 * (rpm / 60)) ⊎ (at ≤ last + 10 * minute))
    × Spared config key ip rpm burst last os

-- The limiter does one after the other, and the client's requests under the pattern that are let
-- through are counted.
unfoldable pub granted : Bytes → Bytes → RateLimiter → List LimiterOp → ℕ
granted key ip rl [] = 0
granted key ip rl (ask q ∷ os) =
    let r = is_rate_limited_with_route rl q.at q.ip q.route in
    let rest = granted key ip r.0 os in
    if is_own rl.config key ip q && not r.1 then suc rest else rest
granted key ip rl (clean at ∷ os) = granted key ip (cleanup rl at) os

-- The limits in force under a pattern.
pub record Limits (config : RateLimitConfig) (key : Bytes) (lc : LimitConfig) (rpm burst : ℕ)
    : Type 0 where
  pub distinct : Distinct config.endpoint_limits
  pub entry : lookup key config.endpoint_limits ≡ some lc
  pub rate : effective lc.requests_per_min config.requests_per_min ≡ pos rpm
  pub size : effective lc.burst_size config.burst_size ≡ pos burst
  pub rate_pos : 0 < rpm
  pub size_pos : 0 < burst
  pub rate_small : rpm < 2147483648
  pub size_small : burst < 2147483648
