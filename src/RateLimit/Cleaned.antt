-- ===== src/RateLimit/Cleaned.antt =====
-- What a cleanup of internal/ratelimit/ratelimit.go leaves, and that the clients under a pattern
-- stay distinct.
use custom_waf.Base.{
  ℕ, suc, ◌≡◌, refl, sym, ap, ◌∙◌, inl, inr, Bool, true, false, not, ◌&&◌, ◌||◌, List, [], ◌∷◌,
  arith, pos, Bytes, Bytes_eq, String_eq, ℕ_eq, bytes_beq, if◌then◌else◌, Bool-cases, Option-cases,
  lookup, insert,
}
use custom_waf.Base.{
  leb_ℤ, Distinct, retain, lookup-retain, keep_if, insert-Distinct, retain-Distinct, lookup-insert,
}
use mathlib.Core.Path.{subst}
use custom_waf.RateLimit.Types.{LimitConfig, ClientBucket, RateLimiter}
use custom_waf.RateLimit.Match.{match_endpoint}
use custom_waf.RateLimit.Bucket.{use_bucket}
use custom_waf.RateLimit.Limiter.{
  or_new, is_recent, cleanup_endpoints, cleanup, store_bucket, is_route_limited, check_route,
  limit_matched, is_rate_limited_with_route, bucket_of, effective,
}
use custom_waf.RateLimit.Frame.{find_bucket, request_matched, request_unmatched}

abbrev pub clients_of : RateLimiter → Bytes → List (Bytes × ClientBucket)
clients_of rl key = or_new (lookup key rl.endpoint_buckets) []

-- A client's map entry after a cleanup.
find-cleanup_endpoints :
    (now : ℕ) (k : Bytes) (m : List (Bytes × List (Bytes × ClientBucket)))
    → or_new (lookup k (cleanup_endpoints now m)) []
      ≡ retain (λ b. is_recent now b.last_request) (or_new (lookup k m) [])
unfolding cleanup_endpoints lookup retain
find-cleanup_endpoints now k [] = refl
find-cleanup_endpoints now k ((j, w) ∷ m) = ground (arith, find-cleanup_endpoints now k m)

-- What is found after a cleanup was used in the last ten minutes.
pub cleanup_found :
    (rl : RateLimiter) (now : ℕ) (key ip : Bytes)
    → Distinct (clients_of rl key)
    → find_bucket (cleanup rl now) key ip
      ≡ keep_if (λ b. is_recent now b.last_request) (find_bucket rl key ip)
unfolding find_bucket cleanup
cleanup_found rl now key ip d =
    ap (lookup ip) (find-cleanup_endpoints now key rl.endpoint_buckets)
    ∙ lookup-retain (λ b. is_recent now b.last_request) ip (clients_of rl key) d

abbrev pub AllDistinct : RateLimiter → Type 0
AllDistinct rl = (k : Bytes) → Distinct (clients_of rl k)

pub cleanup-AllDistinct :
    (rl : RateLimiter) (now : ℕ) → AllDistinct rl → AllDistinct (cleanup rl now)
unfolding cleanup
cleanup-AllDistinct rl now d k =
    subst Distinct (sym (find-cleanup_endpoints now k rl.endpoint_buckets))
      (retain-Distinct _ (clients_of rl k) (d k))

store_bucket-AllDistinct :
    (rl : RateLimiter) (key ip : Bytes) (b : ClientBucket)
    → AllDistinct rl
    → AllDistinct (store_bucket rl key ip b)
unfolding store_bucket
store_bucket-AllDistinct rl key ip b d k =
    let l = lookup-insert key k (insert ip b (clients_of rl key)) rl.endpoint_buckets in
    elim (Bool-cases (bytes_beq key k)) [
      | inl y ↦ rw (l, y) (insert-Distinct ip b (clients_of rl key) (d key))
      | inr n ↦ rw (l, n) (d k)
    ]

choose-AllDistinct :
    (b : Bool) (r t : RateLimiter × Bool)
    → AllDistinct r.0
    → AllDistinct t.0
    → AllDistinct (if b then r else t).0
choose-AllDistinct true r t d e = d
choose-AllDistinct false r t d e = e

check_route-AllDistinct :
    (rl : RateLimiter) (now : ℕ) (key ip route : Bytes) (b : ClientBucket)
    → AllDistinct rl
    → AllDistinct (check_route rl now key ip route b).0
unfolding check_route is_route_limited
check_route-AllDistinct rl now key ip route b d =
    let l = is_route_limited rl now route in
    let refused : RateLimiter × Bool =
      (store_bucket l.0 key ip (record b { blocked_count = suc b.blocked_count }), true) in
    let taken : RateLimiter × Bool = (store_bucket l.0 key ip b, false) in
    choose-AllDistinct (rl.config.route_enabled && not (bytes_beq route []))
      (if l.1 then refused else taken) (store_bucket rl key ip b, false)
      (choose-AllDistinct l.1 refused taken
        (store_bucket-AllDistinct l.0 key ip (record b { blocked_count = suc b.blocked_count }) d)
        (store_bucket-AllDistinct l.0 key ip b d))
      (store_bucket-AllDistinct rl key ip b d)

limit_matched-AllDistinct :
    (rl : RateLimiter) (now : ℕ) (ip route : Bytes) (lc : LimitConfig) (key : Bytes)
    → AllDistinct rl
    → AllDistinct (limit_matched rl now ip route lc key).0
unfolding limit_matched
limit_matched-AllDistinct rl now ip route lc key d =
    let rpm = effective lc.requests_per_min rl.config.requests_per_min in
    let burst = effective lc.burst_size rl.config.burst_size in
    let u = use_bucket (bucket_of rl key ip now burst) now rpm burst in
    choose-AllDistinct (leb_ℤ rpm (pos 0) || leb_ℤ burst (pos 0)) (rl, false)
      (if u.1 then (store_bucket rl key ip u.0, true) else check_route rl now key ip route u.0) d
      (choose-AllDistinct u.1 (store_bucket rl key ip u.0, true)
        (check_route rl now key ip route u.0) (store_bucket-AllDistinct rl key ip u.0 d)
        (check_route-AllDistinct rl now key ip route u.0 d))

pub request-AllDistinct :
    (rl : RateLimiter) (now : ℕ) (ip route : Bytes)
    → AllDistinct rl
    → AllDistinct (is_rate_limited_with_route rl now ip route).0
request-AllDistinct rl now ip route d = elim (Option-cases (match_endpoint rl.config route)) [
  | inl n ↦ rw (request_unmatched rl now ip route n) d
  | inr (m, s) ↦
      rw (request_matched rl now ip route m.1 m.0 s)
        (limit_matched-AllDistinct rl now ip route m.0 m.1 d)
]
