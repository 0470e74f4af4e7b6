-- ===== src/Tests/Limits.antt =====
-- The theorems on internal/ratelimit/ratelimit.go, applied to a small configuration.
use custom_waf.Base.{
  ◌+◌, ◌-◌, ◌*◌, ◌/◌, ◌≤◌, ◌≡◌, refl, sym, ◌∙◌, ◌≢◌, inl, inr, false, List, [], ◌∷◌, arith, pos,
  Bytes, Bytes_eq, String_eq, ℕ_eq, bytes, bytes_beq, bytes_beq_iff, leb, Bool-cases, lookup,
  insert,
}
use custom_waf.Base.{
  bytes_beq, erase, retain, Distinct, has_prefix, has_suffix, quot, int64, ◌+ℤ◌, ◌-ℤ◌, ◌*ℤ◌,
  keep_if, take,
}
use mathlib.Core.List.{Perm}
use custom_waf.RateLimit.Types.{
  LimitConfig, RateLimitConfig, ClientBucket, RateLimiter, second, minute,
}
use custom_waf.RateLimit.Match.{covers, best_from, best_match, match_endpoint}
use custom_waf.RateLimit.Bucket.{
  tokens_to_add, capped_add, refill_tokens_with_config, new_bucket, use_bucket, use_route,
}
use custom_waf.RateLimit.Limiter.{
  is_route_limited, effective, bucket_of, store_bucket, check_route, limit_matched,
  is_rate_limited_with_route, cleanup, cleanup_endpoints, is_recent,
}
use custom_waf.RateLimit.Frame.{find_bucket, request_frame}
use custom_waf.RateLimit.Refill.{filled, earned}
use custom_waf.RateLimit.Runs.{hits, Request, LimiterOp, ask, clean, granted, Limits}
use custom_waf.RateLimit.Cleaned.{AllDistinct}
use custom_waf.RateLimit.Quota.{granted_quota}
use custom_waf.RateLimit.Longest.{Matches, match_endpoint-Matches, match_endpoint_order}
use custom_waf.RateLimit.Outcome.{
  request_verdict, find-cleanup, answers, block_client_ignored, starvation,
}
use custom_waf.RateLimit.Admin.{ClientStats, block_client, get_all_client_stats, get_top_clients}
use custom_waf.RateLimit.Ranking.{IsRanked, get_top_clients-IsRanked}

program : Unit {0}
unfolding covers best_from best_match match_endpoint tokens_to_add capped_add
    refill_tokens_with_config new_bucket use_bucket use_route is_route_limited effective bucket_of
    store_bucket check_route limit_matched is_rate_limited_with_route cleanup cleanup_endpoints
    find_bucket granted hits answers block_client get_all_client_stats get_top_clients lookup insert
    erase retain bytes_beq has_prefix has_suffix quot int64 ◌+ℤ◌ ◌-ℤ◌ ◌*ℤ◌
program = tt

abbrev pub login : Bytes
login = bytes "/login"

abbrev pub api : Bytes
api = bytes "/api/"

abbrev users : Bytes
users = bytes "/api/users"

abbrev alice : Bytes
alice = bytes "10.0.0.1"

abbrev bob : Bytes
bob = bytes "10.0.0.2"

-- 120 requests per minute, in bursts of 2.
abbrev pub two_a_second : LimitConfig
two_a_second = record { requests_per_min = pos 120; burst_size = pos 2 }

-- The burst of this entry is the global one.
abbrev pub slow : LimitConfig
slow = record { requests_per_min = pos 30; burst_size = pos 0 }

abbrev pub config : RateLimitConfig
config = record {
  requests_per_min = pos 100;
  burst_size = pos 20;
  cleanup_interval = pos 300000000000;
  route_enabled = false;
  route_limit = pos 0;
  endpoint_limits = (login, slow) ∷ (api, two_a_second) ∷ [];
}

abbrev reordered : RateLimitConfig
reordered = record config { endpoint_limits = (api, two_a_second) ∷ (login, slow) ∷ [] }

abbrev pub limiter : RateLimiter
limiter = record { clients = []; endpoint_buckets = []; routes = []; config = config }

abbrev run : List Request
run =
    record { at = 0; ip = alice; route = users }
    ∷ record { at = 1; ip = bob; route = users }
    ∷ record { at = 2; ip = alice; route = users }
    ∷ record { at = 3; ip = alice; route = users }
    ∷ record { at = 1000000005; ip = alice; route = users }
    ∷ []

api-Limits : Limits config api two_a_second 120 2
unfolding program
api-Limits = record {
  distinct = (refl, (refl, tt));
  entry = refl;
  rate = refl;
  size = refl;
  rate_pos = omega arith;
  size_pos = omega arith;
  rate_small = omega arith;
  size_small = omega arith;
}

login-Limits : Limits config login slow 30 20
unfolding program
login-Limits = record {
  distinct = (refl, (refl, tt));
  entry = refl;
  rate = refl;
  size = refl;
  rate_pos = omega arith;
  size_pos = omega arith;
  rate_small = omega arith;
  size_small = omega arith;
}

-- The same requests, a cleanup that drops the idle bucket, and one more request.
abbrev cleaned_run : List LimiterOp
cleaned_run =
    ask (record { at = 0; ip = alice; route = users })
    ∷ ask (record { at = 2; ip = alice; route = users })
    ∷ ask (record { at = 3; ip = alice; route = users })
    ∷ clean 660000000000
    ∷ ask (record { at = 660000000001; ip = alice; route = users })
    ∷ []

-- The third request is refused, and the one after the cleanup is granted.
granted-run : granted api alice limiter cleaned_run ≡ 3
unfolding program
granted-run = refl

limiter_Distinct : AllDistinct limiter
unfolding program
limiter_Distinct k = tt

granted_quota_example :
    granted api alice limiter cleaned_run ≤ 2 + (660000000001 - 0) / second * (120 / 60)
unfolding program
granted_quota_example =
    granted_quota api alice two_a_second 120 2 limiter 0 660000000001 cleaned_run api-Limits
      limiter_Distinct refl
      (
        omega arith,
        omega arith,
        (
          omega arith,
          omega arith,
          (omega arith, omega arith, (omega arith, omega arith, (omega arith, omega arith, tt))),
        ),
      )
      (inl (omega arith), tt) (omega arith)

users_not_empty : users ≢ []
users_not_empty e = ground arith

config_Distinct : Distinct config.endpoint_limits
unfolding program
config_Distinct = (refl, (refl, tt))

reordered_Distinct : Distinct reordered.endpoint_limits
unfolding program
reordered_Distinct = (refl, (refl, tt))

match_endpoint-Matches_example : Matches config.endpoint_limits users (match_endpoint config users)
match_endpoint-Matches_example = match_endpoint-Matches config users config_Distinct users_not_empty

-- Two entries, in either order.
two_entries : (k : Bytes) → lookup k config.endpoint_limits ≡ lookup k reordered.endpoint_limits
unfolding lookup
two_entries k = elim (Bool-cases (bytes_beq login k)) [
  | inl y ↦ elim (Bool-cases (bytes_beq api k)) [
    | inl z ↦ absurd (apart ((bytes_beq_iff login k).0 y ∙ sym ((bytes_beq_iff api k).0 z)))
    | inr n ↦ rw (y, n) refl
  ]
  | inr n ↦ rw n refl
]
  where
    apart : login ≢ api
    apart e = ground arith

match_endpoint_order_example : match_endpoint config users ≡ match_endpoint reordered users
match_endpoint_order_example =
    match_endpoint_order config reordered users config_Distinct reordered_Distinct two_entries

-- Bob's bucket after a request of Alice.
request_frame_example :
    find_bucket (is_rate_limited_with_route limiter 0 alice users).0 api bob
    ≡ find_bucket limiter api bob
request_frame_example = request_frame limiter 0 alice users api bob (λ lc m e. absurd (apart e))
  where
    apart : alice ≢ bob
    apart e = ground arith

abbrev spent : ClientBucket
spent = record {
  tokens = pos 0;
  last_refill = 0;
  request_count = 20;
  blocked_count = 0;
  first_request = 0;
  last_request = 0;
}

abbrev drained : RateLimiter
drained = record limiter {
  endpoint_buckets = (api, (alice, spent) ∷ []) ∷ (login, (alice, spent) ∷ []) ∷ [];
}

-- One second earns two tokens.
request_verdict_example :
    (is_rate_limited_with_route drained 1000000000 alice users).1
    ≡ leb (filled 0 (earned 1000000000 0 120) 2) 0
unfolding program
request_verdict_example =
    request_verdict drained 1000000000 alice users api two_a_second 120 2 spent 0 api-Limits refl
      refl refl refl (omega arith)
      (record {
        forward = omega arith;
        short = omega arith;
        rpm_small = omega arith;
        burst_small = omega arith;
      })

abbrev spent_ops : List LimiterOp
spent_ops =
    ask (record { at = 540000000000; ip = alice; route = login })
    ∷ clean 900000000000
    ∷ ask (record { at = 1080000000000; ip = alice; route = login })
    ∷ []

drained_Distinct : AllDistinct drained
unfolding program
drained_Distinct k = elim (Bool-cases (bytes_beq api k)) [
  | inl y ↦ rw y (refl, tt)
  | inr n ↦ elim (Bool-cases (bytes_beq login k)) [
    | inl z ↦ rw (n, z) (refl, tt)
    | inr m ↦ rw (n, m) tt
  ]
]

-- Requests after nine and eighteen minutes, with a cleanup in between, at 30 requests per minute.
starvation_example : granted login alice drained spent_ops ≡ 0
unfolding program
starvation_example =
    starvation login alice slow 30 20 drained 0 1080000000000 spent spent_ops login-Limits
      drained_Distinct (omega arith) refl refl (omega arith) (omega arith) (omega arith)
      (omega arith, omega arith, (omega arith, omega arith, (omega arith, omega arith, tt)))
      (inr (omega arith), tt)

find-cleanup_example :
    find_bucket (cleanup drained (11 * minute)) api alice
    ≡ keep_if (λ b. is_recent (11 * minute) b.last_request) (find_bucket drained api alice)
unfolding program
find-cleanup_example = find-cleanup drained (11 * minute) api alice (refl, tt)

block_client_ignored_example :
    answers (block_client limiter alice 0 (pos second)) run ≡ answers limiter run
block_client_ignored_example = block_client_ignored limiter alice 0 (pos second) run

abbrev known : RateLimiter
known = record limiter {
  clients = (alice, spent) ∷ (bob, record spent { request_count = 35 }) ∷ [];
}

get_top_clients-IsRanked_example :
    (l : List ClientStats) × Perm l (get_all_client_stats known)
    × IsRanked l
    × (get_top_clients known 1 ≡ take 1 l)
get_top_clients-IsRanked_example = get_top_clients-IsRanked known 1
