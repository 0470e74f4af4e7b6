-- ===== src/RateLimit/Frame.antt =====
-- Whose bucket a request of internal/ratelimit/ratelimit.go touches, and with what result.
use custom_waf.Base.{
  ◌∙◌, ap, ℕ, suc, ◌≡◌, refl, inl, inr, false, ◌&&◌, not, [], Option, none, some, Bytes, Bytes_eq,
  bytes_beq, bytes_beq_iff, lookup, insert, lookup-insert, arith, Option-cases, if◌then◌else◌, ◌≢◌,
  pos, Bool-cases, ◌<◌, bytes_beq_ne, Bool, true,
}
use custom_waf.RateLimit.Types.{LimitConfig, ClientBucket, RateLimiter}
use custom_waf.RateLimit.Match.{match_endpoint}
use custom_waf.RateLimit.Bucket.{use_bucket, new_bucket}
use custom_waf.RateLimit.Limiter.{
  or_new, is_route_limited, effective, bucket_of, store_bucket, check_route, limit_matched,
  is_rate_limited_with_route,
}

-- The bucket of a client under a pattern, if there is one.
unfoldable pub find_bucket : RateLimiter → Bytes → Bytes → Option ClientBucket
find_bucket rl key ip = lookup ip (or_new (lookup key rl.endpoint_buckets) [])

pub find-store_bucket :
    (rl : RateLimiter) (key ip k i : Bytes) (b : ClientBucket)
    → find_bucket (store_bucket rl key ip b) k i
      ≡ (if bytes_beq key k && bytes_beq ip i then some b else find_bucket rl k i)
unfolding find_bucket store_bucket
find-store_bucket rl key ip k i b = ground (
  arith,
  bytes_beq_iff key k,
  lookup-insert key k (insert ip b (or_new (lookup key rl.endpoint_buckets) []))
      rl.endpoint_buckets,
  lookup-insert ip i b (or_new (lookup key rl.endpoint_buckets) []),
)

-- The same bucket but for the counts of requests.
abbrev pub SameTokens : ClientBucket → ClientBucket → Type 0
SameTokens b c =
    (b.tokens ≡ c.tokens) × (b.last_refill ≡ c.last_refill) × (b.last_request ≡ c.last_request)

-- The bucket that the last check of a request stores.
pub checked : RateLimiter → ℕ → Bytes → ClientBucket → ClientBucket
checked rl now route b =
    if rl.config.route_enabled && not (bytes_beq route []) && (is_route_limited rl now route).1
    then record b { blocked_count = suc b.blocked_count }
    else b

checked-SameTokens :
    (rl : RateLimiter) (now : ℕ) (route : Bytes) (b : ClientBucket)
    → SameTokens (checked rl now route b) b
unfolding checked
checked-SameTokens rl now route b = ground arith

find-is_route_limited :
    (rl : RateLimiter) (now : ℕ) (route k i : Bytes)
    → find_bucket (is_route_limited rl now route).0 k i ≡ find_bucket rl k i
unfolding is_route_limited find_bucket
find-is_route_limited rl now route k i = refl

find-check_route :
    (rl : RateLimiter) (now : ℕ) (key ip route : Bytes) (b : ClientBucket) (k i : Bytes)
    → find_bucket (check_route rl now key ip route b).0 k i ≡ (
        if bytes_beq key k && bytes_beq ip i
        then some (checked rl now route b)
        else find_bucket rl k i)
unfolding check_route checked
find-check_route rl now key ip route b k i = ground (
  arith,
  find-is_route_limited rl now route k i,
  find-store_bucket rl key ip k i b,
  find-store_bucket (is_route_limited rl now route).0 key ip k i b,
  find-store_bucket (is_route_limited rl now route).0 key ip k i
      (record b { blocked_count = suc b.blocked_count }),
)

check_route_config :
    (rl : RateLimiter) (now : ℕ) (key ip route : Bytes) (b : ClientBucket)
    → (check_route rl now key ip route b).0.config ≡ rl.config
unfolding check_route is_route_limited store_bucket
check_route_config rl now key ip route b = ground arith

pub request_unmatched :
    (rl : RateLimiter) (now : ℕ) (ip route : Bytes)
    → match_endpoint rl.config route ≡ none
    → is_rate_limited_with_route rl now ip route ≡ (rl, false)
unfolding is_rate_limited_with_route
request_unmatched rl now ip route h = rw (h, is_rate_limited_with_route)

pub request_matched :
    (rl : RateLimiter) (now : ℕ) (ip route key : Bytes) (lc : LimitConfig)
    → match_endpoint rl.config route ≡ some (lc, key)
    → is_rate_limited_with_route rl now ip route ≡ limit_matched rl now ip route lc key
unfolding is_rate_limited_with_route
request_matched rl now ip route key lc h = rw (h, is_rate_limited_with_route)

limit_matched_config :
    (rl : RateLimiter) (now : ℕ) (ip route : Bytes) (lc : LimitConfig) (key : Bytes)
    → (limit_matched rl now ip route lc key).0.config ≡ rl.config
unfolding limit_matched store_bucket
limit_matched_config rl now ip route lc key =
    let rpm = effective lc.requests_per_min rl.config.requests_per_min in
    let burst = effective lc.burst_size rl.config.burst_size in
    ground (
      arith,
      check_route_config rl now key ip route
          (use_bucket (bucket_of rl key ip now burst) now rpm burst).0,
    )

-- A request never changes the configuration.
pub request_config :
    (rl : RateLimiter) (now : ℕ) (ip route : Bytes)
    → (is_rate_limited_with_route rl now ip route).0.config ≡ rl.config
request_config rl now ip route = elim (Option-cases (match_endpoint rl.config route)) [
  | inl n ↦ ap (λ r. r.0.config) (request_unmatched rl now ip route n)
  | inr (m, s) ↦
      ap (λ r. r.0.config) (request_matched rl now ip route m.1 m.0 s)
      ∙ limit_matched_config rl now ip route m.0 m.1
]

find-limit_matched_ne :
    (rl : RateLimiter) (now : ℕ) (ip route : Bytes) (lc : LimitConfig) (key k i : Bytes)
    → (bytes_beq key k && bytes_beq ip i) ≡ false
    → find_bucket (limit_matched rl now ip route lc key).0 k i ≡ find_bucket rl k i
unfolding limit_matched
find-limit_matched_ne rl now ip route lc key k i h =
    let rpm = effective lc.requests_per_min rl.config.requests_per_min in
    let burst = effective lc.burst_size rl.config.burst_size in
    let b = (use_bucket (bucket_of rl key ip now burst) now rpm burst).0 in
    ground (arith, find-check_route rl now key ip route b k i, find-store_bucket rl key ip k i b)

-- A request leaves the bucket of another client alone, and the buckets under every pattern but the
-- one that its route matches.
pub request_frame :
    (rl : RateLimiter) (now : ℕ) (ip route k i : Bytes)
    → ((lc : LimitConfig) → match_endpoint rl.config route ≡ some (lc, k) → ip ≢ i)
    → find_bucket (is_rate_limited_with_route rl now ip route).0 k i ≡ find_bucket rl k i
request_frame rl now ip route k i other = elim (Option-cases (match_endpoint rl.config route)) [
  | inl n ↦ ap (λ r. find_bucket r.0 k i) (request_unmatched rl now ip route n)
  | inr (m, s) ↦
      ap (λ r. find_bucket r.0 k i) (request_matched rl now ip route m.1 m.0 s)
      ∙ find-limit_matched_ne rl now ip route m.0 m.1 k i (apart (m.0) (m.1) s)
]
  where
    apart :
        (lc : LimitConfig) (key : Bytes)
        → match_endpoint rl.config route ≡ some (lc, key)
        → (bytes_beq key k && bytes_beq ip i) ≡ false
    apart lc key s = elim (Bool-cases (bytes_beq key k)) [
      | inl y ↦
          rw y
            (bytes_beq_ne ip i (other lc (s ∙ ap (λ x. some (lc, x)) ((bytes_beq_iff key k).0 y))))
      | inr n ↦ rw n
    ]

-- The bucket that a request finds or makes, after it was used.
abbrev pub used_by : RateLimiter → ℕ → Bytes → Bytes → ℕ → ℕ → ClientBucket × Bool
used_by rl now ip key rpm burst =
    use_bucket (or_new (find_bucket rl key ip) (new_bucket now (pos burst))) now (pos rpm)
      (pos burst)

module _ (rl : RateLimiter) (now : ℕ) (ip route key : Bytes) (lc : LimitConfig) (rpm burst : ℕ)
    (er : effective lc.requests_per_min rl.config.requests_per_min ≡ pos rpm)
    (eb : effective lc.burst_size rl.config.burst_size ≡ pos burst) (pr : 0 < rpm)
    (pb : 0 < burst) where
  abbrev pub u : ClientBucket × Bool
  u = used_by rl now ip key rpm burst

  pub limit_matched_pos :
      limit_matched rl now ip route lc key
      ≡ (if u.1 then (store_bucket rl key ip u.0, true) else check_route rl now key ip route u.0)
  unfolding limit_matched bucket_of find_bucket
  limit_matched_pos = rw (er, eb) (ground arith)

  self_keys : (bytes_beq key key && bytes_beq ip ip) ≡ true
  self_keys = ground (arith, bytes_beq_iff key key, bytes_beq_iff ip ip)

  -- What a request does to its own bucket, where the limits are positive.
  pub find-limit_matched_self :
      (b : ClientBucket) × SameTokens b u.0
      × (find_bucket (limit_matched rl now ip route lc key).0 key ip ≡ some b)
      × ((limit_matched rl now ip route lc key).1 ≡ false → u.1 ≡ false)
  find-limit_matched_self = rw limit_matched_pos (elim (Bool-cases u.1) [
    | inl y ↦
        rw y
          (u.0, (refl, refl, refl), find-store_bucket rl key ip key ip u.0 ∙ rw self_keys, λ e. cc)
    | inr n ↦ rw n (
      checked rl now route u.0,
      checked-SameTokens rl now route u.0,
      find-check_route rl now key ip route u.0 key ip ∙ rw self_keys,
      λ e. refl,
    )
  ])
