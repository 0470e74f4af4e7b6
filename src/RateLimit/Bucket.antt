-- ===== src/RateLimit/Bucket.antt =====
-- The buckets of internal/ratelimit/ratelimit.go: refill and use of tokens.
use custom_waf.Base.{
  ℕ, suc, ℤ, pos, ◌+ℤ◌, ◌-ℤ◌, ◌*ℤ◌, quot, int64, ltb_ℤ, leb_ℤ, Bool, true, false, if◌then◌else◌,
}
use custom_waf.RateLimit.Types.{ClientBucket, RouteBucket, second}

-- `int(now.Sub(last).Seconds()) * (perMin / 60)`. `Seconds` goes through a `float64`; the whole seconds
-- are exact here, which differs for waits of months.
unfoldable pub tokens_to_add : ℕ → ℕ → ℤ → ℤ
tokens_to_add now last per_min = int64 (quot (pos now -ℤ pos last) second *ℤ quot per_min 60)

-- `tokens += add; if tokens > cap { tokens = cap }`
unfoldable pub capped_add : ℤ → ℤ → ℤ → ℤ
capped_add tokens add cap = let sum = int64 (tokens +ℤ add) in if ltb_ℤ cap sum then cap else sum

-- `refillTokensWithConfig`
unfoldable pub refill_tokens_with_config : ClientBucket → ℕ → ℤ → ℤ → ClientBucket
unfolding tokens_to_add capped_add
refill_tokens_with_config bucket now rpm burst =
    let add = tokens_to_add now bucket.last_refill rpm in
    if ltb_ℤ (pos 0) add
    then record bucket { tokens = capped_add bucket.tokens add burst; last_refill = now }
    else bucket

-- The bucket that a client's first request finds.
unfoldable pub new_bucket : ℕ → ℤ → ClientBucket
new_bucket now burst = record {
  tokens = burst;
  last_refill = now;
  request_count = 0;
  blocked_count = 0;
  first_request = now;
  last_request = now;
}

-- Refill, count the request, and take a token; the answer is true if the request is blocked.
unfoldable pub use_bucket : ClientBucket → ℕ → ℤ → ℤ → ClientBucket × Bool
unfolding refill_tokens_with_config
use_bucket bucket now rpm burst =
    let filled = refill_tokens_with_config bucket now rpm burst in
    let counted = record filled { request_count = suc filled.request_count; last_request = now } in
    if leb_ℤ counted.tokens (pos 0)
    then (record counted { blocked_count = suc counted.blocked_count }, true)
    else (record counted { tokens = int64 (counted.tokens -ℤ pos 1) }, false)

-- `isRouteLimited`, on the bucket of the route.
unfoldable pub use_route : RouteBucket → ℕ → ℤ → RouteBucket × Bool
unfolding tokens_to_add capped_add
use_route bucket now limit =
    let add = tokens_to_add now bucket.last_refill limit in
    let filled =
      if ltb_ℤ (pos 0) add
      then record bucket { tokens = capped_add bucket.tokens add limit; last_refill = now }
      else bucket in
    let counted = record filled { request_count = suc filled.request_count } in
    if leb_ℤ counted.tokens (pos 0)
    then (counted, true)
    else (record counted { tokens = int64 (counted.tokens -ℤ pos 1) }, false)
