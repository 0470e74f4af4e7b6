-- ===== src/RateLimit/Match.antt =====
-- `matchEndpointLocked` of internal/ratelimit/ratelimit.go: an exact entry, or else the longest
-- pattern that ends in "/" and is a prefix of the route.
use custom_waf.Base.{
  pos, Bool, true, ◌&&◌, List, [], ◌∷◌, Option, none, some, Bytes, Bytes_eq, bytes, bytes_beq, ltb,
  length, has_prefix, has_suffix, lookup, if◌then◌else◌,
}
use custom_waf.RateLimit.Types.{LimitConfig, RateLimitConfig}

-- The key is a subtree pattern that covers the route.
unfoldable pub covers : Bytes → Bytes → Bool
covers route k = has_suffix k (bytes "/") && has_prefix route k

-- The loop over the entries, in the order of its iteration, with `bestKey` and `bestLC`.
unfoldable pub best_from :
    Bytes → Bytes × LimitConfig → List (Bytes × LimitConfig) → Bytes × LimitConfig
best_from route best [] = best
best_from route best ((k, v) ∷ limits) =
    best_from route
      (if covers route k then (if ltb (length best.0) (length k) then (k, v) else best) else best)
      limits

abbrev pub no_limit : LimitConfig
no_limit = record { requests_per_min = pos 0; burst_size = pos 0 }

-- The longest covering pattern with its limits; an empty key means that there is none.
unfoldable pub best_match : Bytes → List (Bytes × LimitConfig) → Option (LimitConfig × Bytes)
unfolding best_from
best_match route limits =
    let best = best_from route ([], no_limit) limits in
    if bytes_beq best.0 [] then none else some (best.1, best.0)

unfoldable pub match_endpoint : RateLimitConfig → Bytes → Option (LimitConfig × Bytes)
match_endpoint config route = elim (bytes_beq route []) [
  | true ↦ none
  | _ ↦ elim (lookup route config.endpoint_limits) [
    | some lc ↦ some (lc, route)
    | none ↦ best_match route config.endpoint_limits
  ]
]
