-- ===== src/RateLimit/Types.antt =====
-- The data of internal/ratelimit/ratelimit.go. A `time.Time` is a count of nanoseconds, a client
-- IP and a route are byte strings, an `int` that can be negative is an integer. The counters of
-- requests grow by one per request and are plain numbers.
use custom_waf.Base.{◌*◌, ℕ, ℤ, pos, Bool, List, [], Bytes, is_zero, if◌then◌else◌}

pub record LimitConfig : Type 0 where
  pub requests_per_min : ℤ
  pub burst_size : ℤ

pub record RateLimitConfig : Type 0 where
  pub requests_per_min : ℤ
  pub burst_size : ℤ
  pub cleanup_interval : ℤ
  pub route_enabled : Bool
  pub route_limit : ℤ
  pub endpoint_limits : List (Bytes × LimitConfig)

pub record ClientBucket : Type 0 where
  pub tokens : ℤ
  pub last_refill : ℕ
  pub request_count : ℕ
  pub blocked_count : ℕ
  pub first_request : ℕ
  pub last_request : ℕ

pub record RouteBucket : Type 0 where
  pub tokens : ℤ
  pub last_refill : ℕ
  pub request_count : ℕ

-- The ticker and the channel of the cleanup goroutine are left out: `cleanup` is an operation of
-- its own, which may run between any two others.
pub record RateLimiter : Type 0 where
  pub clients : List (Bytes × ClientBucket)
  pub endpoint_buckets : List (Bytes × List (Bytes × ClientBucket))
  pub routes : List (Bytes × RouteBucket)
  pub config : RateLimitConfig

abbrev pub second : ℕ
second = 1000000000

abbrev pub minute : ℕ
minute = 60000000000

unfoldable pub new_rate_limiter : RateLimitConfig → RateLimiter
new_rate_limiter config = record {
  clients = [];
  endpoint_buckets = [];
  routes = [];
  config = record config {
    requests_per_min = if is_zero config.requests_per_min then pos 100 else config.requests_per_min;
    burst_size = if is_zero config.burst_size then pos 20 else config.burst_size;
    cleanup_interval =
        if is_zero config.cleanup_interval then pos (5 * minute) else config.cleanup_interval;
  };
}
