-- ===== src/RateLimit/Limiter.antt =====
-- The decision of internal/ratelimit/ratelimit.go on one request, and the resets and the cleanup.
-- A client's bucket is shared through a pointer: it is written back after its last change.
use custom_waf.Base.{
  ℕ, suc, ◌+◌, ◌*◌, ℤ, pos, leb_ℤ, is_zero, Bool, true, false, ◌&&◌, ◌||◌, not, List, [], ◌∷◌,
  Option, none, some, Bytes, Bytes_eq, bytes_beq, ltb, lookup, insert, retain, if◌then◌else◌,
}
use custom_waf.RateLimit.Types.{
  LimitConfig, RateLimitConfig, ClientBucket, RouteBucket, RateLimiter, minute,
}
use custom_waf.RateLimit.Match.{match_endpoint}
use custom_waf.RateLimit.Bucket.{new_bucket, use_bucket, use_route}

-- `v, exists := m[k]; if !exists { v = d }`
abbrev pub or_new {ℓ} : {A : Type ℓ} → Option A → A → A
or_new none d = d
or_new (some a) d = a

-- `isRouteLimited`: the route's bucket is made on its first request.
unfoldable pub is_route_limited : RateLimiter → ℕ → Bytes → RateLimiter × Bool
is_route_limited rl now route =
    let limit = rl.config.route_limit in
    let fresh : RouteBucket = record { tokens = limit; last_refill = now; request_count = 0 } in
    let used = use_route (or_new (lookup route rl.routes) fresh) now limit in
    (record rl { routes = insert route used.0 rl.routes }, used.1)

-- A field that the entry leaves at zero falls back to the global default.
unfoldable pub effective : ℤ → ℤ → ℤ
effective own global = if is_zero own then global else own

-- The bucket of a client under a pattern, new if there is none.
unfoldable pub bucket_of : RateLimiter → Bytes → Bytes → ℕ → ℤ → ClientBucket
bucket_of rl key ip now burst =
    or_new (lookup ip (or_new (lookup key rl.endpoint_buckets) [])) (new_bucket now burst)

unfoldable pub store_bucket : RateLimiter → Bytes → Bytes → ClientBucket → RateLimiter
store_bucket rl key ip bucket = record rl {
  endpoint_buckets =
      insert key (insert ip bucket (or_new (lookup key rl.endpoint_buckets) []))
        rl.endpoint_buckets;
}

-- The end of `IsRateLimitedWithRoute`, after a token was taken: the limit of the route itself.
unfoldable pub check_route :
    RateLimiter → ℕ → Bytes → Bytes → Bytes → ClientBucket → RateLimiter × Bool
check_route rl now key ip route bucket =
    if rl.config.route_enabled && not (bytes_beq route [])
    then (let limited = is_route_limited rl now route in
        if limited.1
        then (
          store_bucket limited.0 key ip
              (record bucket { blocked_count = suc bucket.blocked_count }),
          true,
        )
        else (store_bucket limited.0 key ip bucket, false))
    else (store_bucket rl key ip bucket, false)

-- `IsRateLimitedWithRoute` for a route that an entry matches.
unfoldable pub limit_matched :
    RateLimiter → ℕ → Bytes → Bytes → LimitConfig → Bytes → RateLimiter × Bool
limit_matched rl now ip route lc key =
    let rpm = effective lc.requests_per_min rl.config.requests_per_min in
    let burst = effective lc.burst_size rl.config.burst_size in
    let used = use_bucket (bucket_of rl key ip now burst) now rpm burst in
    if leb_ℤ rpm (pos 0) || leb_ℤ burst (pos 0)
    then (rl, false)
    else (if used.1
        then (store_bucket rl key ip used.0, true)
        else check_route rl now key ip route used.0)

-- `IsRateLimitedWithRoute`: true if the request is to be rejected.
unfoldable pub is_rate_limited_with_route : RateLimiter → ℕ → Bytes → Bytes → RateLimiter × Bool
is_rate_limited_with_route rl now ip route = elim (match_endpoint rl.config route) [
  | none ↦ (rl, false)
  | some m ↦ limit_matched rl now ip route m.0 m.1
]

-- `IsRateLimited`
unfoldable pub is_rate_limited : RateLimiter → ℕ → Bytes → RateLimiter × Bool
is_rate_limited rl now ip = is_rate_limited_with_route rl now ip []

-- An entry stays while it was used in the last ten minutes.
abbrev pub is_recent : ℕ → ℕ → Bool
is_recent now t = not (ltb (t + 10 * minute) now)

unfoldable pub cleanup_endpoints :
    ℕ → List (Bytes × List (Bytes × ClientBucket)) → List (Bytes × List (Bytes × ClientBucket))
cleanup_endpoints now [] = []
cleanup_endpoints now ((k, ips) ∷ m) =
    (k, retain (λ b. is_recent now b.last_request) ips) ∷ cleanup_endpoints now m

unfoldable pub cleanup : RateLimiter → ℕ → RateLimiter
cleanup rl now = record rl {
  clients = retain (λ b. is_recent now b.last_request) rl.clients;
  endpoint_buckets = cleanup_endpoints now rl.endpoint_buckets;
  routes = retain (λ b. is_recent now b.last_refill) rl.routes;
}

-- `ResetAllClients`
unfoldable pub reset_all_clients : RateLimiter → RateLimiter
reset_all_clients rl = record rl { clients = []; endpoint_buckets = []; routes = [] }

-- `SetConfig`
unfoldable pub set_config : RateLimiter → RateLimitConfig → RateLimiter
set_config rl config = record rl { config = config }
