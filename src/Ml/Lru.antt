-- ===== src/Ml/Lru.antt =====
-- What the cache of internal/ml/cache.go promises: one list of keyed answers, the last used
-- first, of a bounded length. It has no index and no addresses.
use custom_waf.Base.{
  ℕ, Option, none, some, List, ◌∷◌, ℤ, pos, Bytes, Bytes_eq, String_eq, ℕ_eq, if◌then◌else◌, lookup,
}
use custom_waf.Base.{erase, take, ltb_ℤ}

abbrev pub Lru : Type 0 → Type 0
Lru V = List (Bytes × (V × ℤ))

module _ {V : Type 0} where
  -- What is asked for comes to the front, and goes if it has run out.
  abbrev pub lru_found : Lru V → ℕ → Bytes → Option (V × ℤ) → Lru V × Option V
  lru_found l now key none = (l, none)
  lru_found l now key (some (v, until)) =
      if ltb_ℤ until (pos now)
      then (erase key l, none)
      else ((key, (v, until)) ∷ erase key l, some v)

  unfoldable pub lru_get : Lru V → ℕ → Bytes → Lru V × Option V
  lru_get l now key = lru_found l now key (lookup key l)

  -- What is stored comes to the front, and the list is cut.
  unfoldable pub lru_put : ℕ → Lru V → Bytes → V → ℤ → Lru V
  lru_put capacity l key v until = take capacity ((key, (v, until)) ∷ erase key l)
