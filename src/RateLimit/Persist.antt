-- ===== src/RateLimit/Persist.antt =====
-- internal/ratelimit/persist.go, without the encoding as JSON and the time of saving.
use custom_waf.Base.{ℕ, List, ℤ, Bytes, Bytes_eq, String_eq, ℕ_eq, if◌then◌else◌, eqb}
use custom_waf.Base.{map_values}
use custom_waf.RateLimit.Types.{ClientBucket, RouteBucket, RateLimiter}

pub record ClientBucketWire : Type 0 where
  pub tokens : ℤ
  pub last_refill : ℕ
  pub request_count : ℕ
  pub blocked_count : ℕ
  pub first_request : ℕ
  pub last_request : ℕ

pub record RouteBucketWire : Type 0 where
  pub tokens : ℤ
  pub last_refill : ℕ
  pub request_count : ℕ

pub record LimiterSnapshot : Type 0 where
  pub version : ℕ
  pub clients : List (Bytes × ClientBucketWire)
  pub endpoint_buckets : List (Bytes × List (Bytes × ClientBucketWire))
  pub routes : List (Bytes × RouteBucketWire)

unfoldable pub client_bucket_to_wire : ClientBucket → ClientBucketWire
client_bucket_to_wire b = record {
  tokens = b.tokens;
  last_refill = b.last_refill;
  request_count = b.request_count;
  blocked_count = b.blocked_count;
  first_request = b.first_request;
  last_request = b.last_request;
}

unfoldable pub client_bucket_from_wire : ClientBucketWire → ClientBucket
client_bucket_from_wire w = record {
  tokens = w.tokens;
  last_refill = w.last_refill;
  request_count = w.request_count;
  blocked_count = w.blocked_count;
  first_request = w.first_request;
  last_request = w.last_request;
}

abbrev pub route_to_wire : RouteBucket → RouteBucketWire
route_to_wire b = record {
  tokens = b.tokens;
  last_refill = b.last_refill;
  request_count = b.request_count;
}

abbrev pub route_from_wire : RouteBucketWire → RouteBucket
route_from_wire w = record {
  tokens = w.tokens;
  last_refill = w.last_refill;
  request_count = w.request_count;
}

unfoldable pub snapshot : RateLimiter → LimiterSnapshot
unfolding map_values client_bucket_to_wire
snapshot rl = record {
  version = 1;
  clients = map_values client_bucket_to_wire rl.clients;
  endpoint_buckets = map_values (map_values client_bucket_to_wire) rl.endpoint_buckets;
  routes = map_values route_to_wire rl.routes;
}

-- The buckets are replaced, unless the version is another.
unfoldable pub restore : RateLimiter → LimiterSnapshot → RateLimiter
unfolding map_values client_bucket_from_wire
restore rl snap =
    if eqb snap.version 1
    then record rl {
      clients = map_values client_bucket_from_wire snap.clients;
      endpoint_buckets = map_values (map_values client_bucket_from_wire) snap.endpoint_buckets;
      routes = map_values route_from_wire snap.routes;
    }
    else rl
