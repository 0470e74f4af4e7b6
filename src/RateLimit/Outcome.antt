-- ===== src/RateLimit/Outcome.antt =====
-- Single requests, cleanup and manual blocks of internal/ratelimit/ratelimit.go.
use custom_waf.RateLimit.Longest.{match_endpoint_empty, Matches-unique, match_endpoint-Matches}
use custom_waf.RateLimit.Bucket.{use_bucket, new_bucket}
use custom_waf.RateLimit.Refill.{InRange, filled, earned, use_bucket-Used}
use custom_waf.RateLimit.Admin.{block_client}
use custom_waf.RateLimit.Limiter.{
  cleanup, check_route, limit_matched, is_rate_limited_with_route, or_new, is_route_limited,
  bucket_of, is_recent, store_bucket, effective,
}
use custom_waf.RateLimit.Runs.{Request, LimiterOp, Ordered, Spared, granted, Limits}
use custom_waf.RateLimit.Cleaned.{AllDistinct, cleanup_found}
use custom_waf.RateLimit.Quota.{Follows, granted_le}
use custom_waf.RateLimit.Match.{covers, match_endpoint}
use custom_waf.Base.{
  ℕ, ◌≡◌, refl, ◌∙◌, ap, ℤ, pos, Bool, false, List, [], ◌∷◌, none, some, Bytes, Bytes_eq, arith,
  Option-cases, lookup, Distinct, keep_if, leb, ◌≤◌, inl, inr, ◌<◌, ◌-◌, half_word, ◌+◌, ◌*◌, ◌/◌,
  String_eq, ℕ_eq,
}
use custom_waf.RateLimit.Types.{LimitConfig, ClientBucket, RateLimiter, second}
use custom_waf.RateLimit.Frame.{
  find_bucket, used_by, limit_matched_pos, request_unmatched, request_matched,
}

-- A route that no entry of the table names and no pattern covers is never limited, and leaves no
-- trace in the limiter. Keys are distinct.
pub unconfigured_passes :
    (rl : RateLimiter) (now : ℕ) (ip route : Bytes)
    → Distinct rl.config.endpoint_limits
    → lookup route rl.config.endpoint_limits ≡ none
    → ((j : Bytes) (v : LimitConfig)
        → lookup j rl.config.endpoint_limits ≡ some v
        → covers route j ≡ false)
    → is_rate_limited_with_route rl now ip route ≡ (rl, false)
unconfigured_passes rl now ip [] d n c =
    request_unmatched rl now ip [] (match_endpoint_empty rl.config)
unconfigured_passes rl now ip (x ∷ route) d n c = request_unmatched rl now ip (x ∷ route) (
    Matches-unique rl.config.endpoint_limits rl.config.endpoint_limits (x ∷ route) (λ k. refl) _
      none (match_endpoint-Matches rl.config (x ∷ route) d (λ e. cc)) (n, c))

check_route_off :
    (rl : RateLimiter) (now : ℕ) (key ip route : Bytes) (b : ClientBucket)
    → rl.config.route_enabled ≡ false
    → (check_route rl now key ip route b).1 ≡ false
unfolding check_route
check_route_off rl now key ip route b h = ground arith

-- With the limit per route switched off, a request under a positive limit is rejected exactly if
-- the client's bucket, refilled up to now, is empty. A client without a bucket has a new one. The
-- bucket holds no more than the burst, the limits are below 2^31, and the wait is below 2^63
-- nanoseconds.
pub request_verdict :
    (rl : RateLimiter) (now : ℕ) (ip route key : Bytes) (lc : LimitConfig) (rpm burst : ℕ)
    (b : ClientBucket) (t : ℕ)
    → Limits rl.config key lc rpm burst
    → rl.config.route_enabled ≡ false
    → match_endpoint rl.config route ≡ some (lc, key)
    → or_new (find_bucket rl key ip) (new_bucket now (pos burst)) ≡ b
    → b.tokens ≡ pos t
    → t ≤ burst
    → InRange now b.last_refill rpm burst
    → (is_rate_limited_with_route rl now ip route).1
      ≡ leb (filled t (earned now b.last_refill rpm) burst) 0
request_verdict rl now ip route key lc rpm burst b t l off m f e s r =
    ap (λ x. x.1)
      (request_matched rl now ip route key lc m
        ∙ limit_matched_pos rl now ip route key lc rpm burst l.rate l.size l.rate_pos l.size_pos)
    ∙ ground (
      arith,
      use_bucket-Used b now t rpm burst e s r,
      check_route_off rl now key ip route (used_by rl now ip key rpm burst).0 off,
    )

-- A cleanup drops the buckets that were last used more than ten minutes ago, and no others. The
-- clients under the pattern are distinct.
pub find-cleanup :
    (rl : RateLimiter) (now : ℕ) (key ip : Bytes)
    → Distinct (or_new (lookup key rl.endpoint_buckets) [])
    → find_bucket (cleanup rl now) key ip
      ≡ keep_if (λ b. is_recent now b.last_request) (find_bucket rl key ip)
find-cleanup rl now key ip d = cleanup_found rl now key ip d

module _ (c : List (Bytes × ClientBucket)) (rl : RateLimiter) (now : ℕ) where
  abbrev with_clients : RateLimiter × Bool → RateLimiter × Bool
  with_clients r = (record (r.0) { clients = c }, r.1)

  check_route_clients :
      (key ip route : Bytes) (b : ClientBucket)
      → check_route (record rl { clients = c }) now key ip route b
        ≡ with_clients (check_route rl now key ip route b)
  unfolding check_route is_route_limited store_bucket
  check_route_clients key ip route b = ground arith

  limit_matched_clients :
      (ip route : Bytes) (lc : LimitConfig) (key : Bytes)
      → limit_matched (record rl { clients = c }) now ip route lc key
        ≡ with_clients (limit_matched rl now ip route lc key)
  unfolding limit_matched bucket_of store_bucket
  limit_matched_clients ip route lc key =
      let rpm = effective lc.requests_per_min rl.config.requests_per_min in
      let burst = effective lc.burst_size rl.config.burst_size in
      ground (
        arith,
        check_route_clients key ip route
            (use_bucket (bucket_of rl key ip now burst) now rpm burst).0,
      )

  request_clients :
      (ip route : Bytes)
      → is_rate_limited_with_route (record rl { clients = c }) now ip route
        ≡ with_clients (is_rate_limited_with_route rl now ip route)
  unfolding is_rate_limited_with_route
  request_clients ip route = elim (Option-cases (match_endpoint rl.config route)) [
    | inl n ↦ ground arith
    | inr (m, s) ↦ ground (arith, limit_matched_clients ip route m.0 m.1)
  ]

-- The answers to a run of requests.
unfoldable pub answers : RateLimiter → List Request → List Bool
answers rl [] = []
answers rl (q ∷ qs) =
    let r = is_rate_limited_with_route rl q.at q.ip q.route in r.1 ∷ answers r.0 qs

answers_clients :
    (c : List (Bytes × ClientBucket)) (qs : List Request) (rl : RateLimiter)
    → answers (record rl { clients = c }) qs ≡ answers rl qs
unfolding answers
answers_clients c [] rl = refl
answers_clients c (q ∷ qs) rl = cc (
  request_clients c rl q.at q.ip q.route,
  answers_clients c qs (is_rate_limited_with_route rl q.at q.ip q.route).0,
)

-- `BlockClient` blocks nobody: whichever client it is called for, every run of requests gets the
-- same answers after the call as without it.
pub block_client_ignored :
    (rl : RateLimiter) (who : Bytes) (at : ℕ) (duration : ℤ) (qs : List Request)
    → answers (block_client rl who at duration) qs ≡ answers rl qs
unfolding block_client
block_client_ignored rl who at duration qs = answers_clients _ qs rl

nothing_earned : (secs rpm : ℕ) → rpm < 60 → 0 + secs * (rpm / 60) ≤ 0
nothing_earned secs rpm h = let z : rpm / 60 ≡ 0 = omega arith in rw z (omega arith)

-- The rate is divided by 60 in whole numbers: below 60 requests per minute nothing is ever
-- refilled. A client that has used up its burst is then rejected under the pattern, whatever requests
-- of other clients and cleanups come in between and however long the run (less than 2^63 nanoseconds),
-- as long as each cleanup finds that it has asked in the ten minutes before: a bucket that was idle
-- for longer is dropped, and made anew. The keys of the maps are distinct.
pub starvation :
    (key ip : Bytes) (lc : LimitConfig) (rpm burst : ℕ) (rl : RateLimiter) (start end : ℕ)
    (b : ClientBucket) (os : List LimiterOp)
    → Limits rl.config key lc rpm burst
    → AllDistinct rl
    → rpm < 60
    → find_bucket rl key ip ≡ some b
    → b.tokens ≡ pos 0
    → b.last_refill ≤ b.last_request
    → b.last_refill ≤ start
    → end - b.last_refill < half_word
    → Ordered start end os
    → Spared rl.config key ip rpm burst b.last_request os
    → granted key ip rl os ≡ 0
unfolding Follows
starvation key ip lc rpm burst rl start end b os l d slow f e used before short o sp =
    let none_left =
      granted_le key ip lc rpm burst end os rl 0 start b.last_request l d o sp (rw f (omega arith))
        (rw f (
          0,
          e,
          omega arith,
          before,
          used,
          short,
          nothing_earned ((end - b.last_refill) / second) rpm slow,
        )) in
    omega arith
