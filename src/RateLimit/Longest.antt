-- ===== src/RateLimit/Longest.antt =====
-- What the pattern search of internal/ratelimit/ratelimit.go finds.
use custom_waf.Base.{
  bytes_beq_ne, ap, bytes_beq_iff, lookup_of_In, In-of_lookup, ◌≤◌, ◌≡◌, refl, ◌⊎◌, inl, inr, true,
  List, [], ◌∷◌, In, Bytes, Bytes_eq, length, arith, has_suffix, lookup, Option, Distinct,
  bytes_beq, some, false, none, ◌≢◌, lookup_of_In, Bool-cases, Option-cases, In-of_lookup,
  prefix_unique, sym,
}
use mathlib.Core.Path.{subst}
use custom_waf.RateLimit.Types.{LimitConfig, RateLimitConfig}
use custom_waf.RateLimit.Match.{covers, best_from, match_endpoint, no_limit, best_match}

best_from-In :
    (route : Bytes) (best : Bytes × LimitConfig) (m : List (Bytes × LimitConfig))
    → (best_from route best m ≡ best)
      ⊎ ((covers route (best_from route best m).0 ≡ true) × In (best_from route best m) m)
unfolding best_from
best_from-In route best [] = inl refl
best_from-In route best ((k, v) ∷ m) =
    grind (arith, best_from-In route best m, best_from-In route (k, v) m)

best_from_ge :
    (route : Bytes) (best : Bytes × LimitConfig) (m : List (Bytes × LimitConfig))
    → length best.0 ≤ length (best_from route best m).0
unfolding best_from
best_from_ge route best [] = omega arith
best_from_ge route best ((k, v) ∷ m) =
    ground (arith, best_from_ge route best m, best_from_ge route (k, v) m)

best_from_max :
    (route : Bytes) (best : Bytes × LimitConfig) (m : List (Bytes × LimitConfig)) (k : Bytes)
    (v : LimitConfig)
    → In (k, v) m
    → covers route k ≡ true
    → length k ≤ length (best_from route best m).0
unfolding best_from
best_from_max route best [] k v i c = absurd i
best_from_max route best ((j, w) ∷ m) k v (inl y) c =
    ground (arith, best_from_ge route best m, best_from_ge route (j, w) m)
best_from_max route best ((j, w) ∷ m) k v (inr i) c =
    ground (arith, best_from_max route best m k v i c, best_from_max route (j, w) m k v i c)

covers_nil : (route : Bytes) → covers route [] ≡ false
unfolding covers has_suffix bytes_beq
covers_nil route = refl

covers_unique :
    (route k k' : Bytes)
    → covers route k ≡ true
    → covers route k' ≡ true
    → length k ≡ length k'
    → k ≡ k'
unfolding covers
covers_unique route k k' h h' e = prefix_unique route k k' (ground arith) (ground arith) e

-- The key is the longest pattern of the table that covers the route.
pub record IsLongest (limits : List (Bytes × LimitConfig)) (route : Bytes) (lc : LimitConfig)
    (k : Bytes) : Type 0 where
  pub entry : lookup k limits ≡ some lc
  pub covering : covers route k ≡ true
  pub longest :
      (j : Bytes) (v : LimitConfig)
      → lookup j limits ≡ some v
      → covers route j ≡ true
      → length j ≤ length k

-- What the documentation of the limiter promises for a route: the exact entry, or else the longest
-- covering pattern, and nothing only if there is neither.
abbrev pub Matches : List (Bytes × LimitConfig) → Bytes → Option (LimitConfig × Bytes) → Type 0
Matches limits route (some (lc, k)) =
    ((k ≡ route) × (lookup route limits ≡ some lc))
    ⊎ ((lookup route limits ≡ none) × IsLongest limits route lc k)
Matches limits route none =
    (lookup route limits ≡ none)
    × ((j : Bytes) (v : LimitConfig) → lookup j limits ≡ some v → covers route j ≡ false)

module _ (route : Bytes) (limits : List (Bytes × LimitConfig)) (d : Distinct limits) where
  abbrev found : Bytes × LimitConfig
  found = best_from route ([], no_limit) limits

  best-IsLongest : bytes_beq found.0 [] ≡ false → IsLongest limits route found.1 found.0
  best-IsLongest h = elim (best_from-In route ([], no_limit) limits) [
    | inl e ↦ ground (arith, bytes_beq_iff found.0 [])
    | inr c ↦ record {
      entry = lookup_of_In found.0 found.1 limits d c.1;
      covering = c.0;
      longest = λ j v l cov.
          best_from_max route ([], no_limit) limits j v (In-of_lookup j v limits l) cov;
    }
  ]

  nothing_covers :
      bytes_beq found.0 [] ≡ true
      → (j : Bytes) (v : LimitConfig) → lookup j limits ≡ some v
      → covers route j ≡ false
  nothing_covers h [] v l = covers_nil route
  nothing_covers h (x ∷ j) v l = elim (Bool-cases (covers route (x ∷ j))) [
    | inl c ↦ absurd (
        omega (
          arith,
          best_from_max route ([], no_limit) limits (x ∷ j) v (In-of_lookup (x ∷ j) v limits l) c,
          ap length ((bytes_beq_iff found.0 []).0 h),
        ))
    | inr c ↦ c
  ]

  best_match-Matches : lookup route limits ≡ none → Matches limits route (best_match route limits)
  unfolding best_match
  best_match-Matches n = elim (Bool-cases (bytes_beq found.0 [])) [
    | inl h ↦ rw h (n, nothing_covers h)
    | inr h ↦ rw h (inr (n, best-IsLongest h))
  ]

pub match_endpoint_empty : (config : RateLimitConfig) → match_endpoint config [] ≡ none
unfolding match_endpoint bytes_beq
match_endpoint_empty config = refl

match_endpoint_exact :
    (config : RateLimitConfig) (route : Bytes) (lc : LimitConfig)
    → route ≢ []
    → lookup route config.endpoint_limits ≡ some lc
    → match_endpoint config route ≡ some (lc, route)
unfolding match_endpoint
match_endpoint_exact config route lc ne s = ground (arith, bytes_beq_ne route [] ne)

match_endpoint_best :
    (config : RateLimitConfig) (route : Bytes)
    → route ≢ []
    → lookup route config.endpoint_limits ≡ none
    → match_endpoint config route ≡ best_match route config.endpoint_limits
unfolding match_endpoint
match_endpoint_best config route ne s = ground (arith, bytes_beq_ne route [] ne)

-- For every route but the empty one the search finds what is promised: the exact entry, or else the
-- longest covering pattern; it finds nothing only if there is neither. Keys are distinct.
pub match_endpoint-Matches :
    (config : RateLimitConfig) (route : Bytes)
    → Distinct config.endpoint_limits
    → route ≢ []
    → Matches config.endpoint_limits route (match_endpoint config route)
match_endpoint-Matches config route d ne =
    elim (Option-cases (lookup route config.endpoint_limits)) [
      | inl n ↦
          subst (Matches config.endpoint_limits route) (sym (match_endpoint_best config route ne n))
            (best_match-Matches route config.endpoint_limits d n)
      | inr (lc, s) ↦
          subst (Matches config.endpoint_limits route)
            (sym (match_endpoint_exact config route lc ne s)) (inl (refl, s))
    ]

-- Of two answers that fit one table, and hence of two orders in which it is gone through, there is
-- only one.
pub Matches-unique :
    (limits limits' : List (Bytes × LimitConfig)) (route : Bytes)
    → ((k : Bytes) → lookup k limits ≡ lookup k limits')
    → (r r' : Option (LimitConfig × Bytes)) → Matches limits route r
    → Matches limits' route r'
    → r ≡ r'
Matches-unique limits limits' route same none none m m' = refl
Matches-unique limits limits' route same none (some (lc, k)) m (inl x) = ground (arith, same route)
Matches-unique limits limits' route same none (some (lc, k)) m (inr x) =
    ground (arith, same k, m.1 k lc)
Matches-unique limits limits' route same (some (lc, k)) none (inl x) m' = ground (arith, same route)
Matches-unique limits limits' route same (some (lc, k)) none (inr x) m' =
    ground (arith, same k, m'.1 k lc)
Matches-unique limits limits' route same (some (lc, k)) (some (lc', k')) (inl x) (inl y) =
    ground (arith, same route)
Matches-unique limits limits' route same (some (lc, k)) (some (lc', k')) (inl x) (inr y) =
    ground (arith, same route)
Matches-unique limits limits' route same (some (lc, k)) (some (lc', k')) (inr x) (inl y) =
    ground (arith, same route)
Matches-unique limits limits' route same (some (lc, k)) (some (lc', k')) (inr x) (inr y) =
    ground (arith, same k, same k', covers_unique route k k', x.1.longest k' lc', y.1.longest k lc)

-- The search does not depend on the order in which the map is gone through: two tables that map
-- the same distinct keys to the same limits answer alike, for every route.
pub match_endpoint_order :
    (config config' : RateLimitConfig) (route : Bytes)
    → Distinct config.endpoint_limits
    → Distinct config'.endpoint_limits
    → ((k : Bytes) → lookup k config.endpoint_limits ≡ lookup k config'.endpoint_limits)
    → match_endpoint config route ≡ match_endpoint config' route
match_endpoint_order config config' [] d d' same = rw (match_endpoint_empty, match_endpoint_empty)
match_endpoint_order config config' (x ∷ route) d d' same =
    Matches-unique config.endpoint_limits config'.endpoint_limits (x ∷ route) same _ _
      (match_endpoint-Matches config (x ∷ route) d (λ e. cc))
      (match_endpoint-Matches config' (x ∷ route) d' (λ e. cc))

-- What the search returns is an entry of the table.
pub lookup-match_endpoint :
    (config : RateLimitConfig) (route k : Bytes) (lc : LimitConfig)
    → Distinct config.endpoint_limits
    → match_endpoint config route ≡ some (lc, k)
    → lookup k config.endpoint_limits ≡ some lc
lookup-match_endpoint config [] k lc d h = ground (arith, match_endpoint_empty config)
lookup-match_endpoint config (x ∷ route) k lc d h = from (
    subst (Matches config.endpoint_limits (x ∷ route)) h
      (match_endpoint-Matches config (x ∷ route) d (λ e. cc)))
  where
    from :
        Matches config.endpoint_limits (x ∷ route) (some (lc, k))
        → lookup k config.endpoint_limits ≡ some lc
    from (inl (e, l)) = rw e l
    from (inr (n, l)) = l.entry
