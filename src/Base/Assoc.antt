-- ===== src/Base/Assoc.antt =====
-- A Go map as an association list: reads, writes, `delete`, and the loop that deletes entries.
use Prim.Native.Nat.{◌≤◌, suc}
use mathlib.Core.Path.{◌≡◌, refl}
use mathlib.Core.Logic.{inl, inr}
use mathlib.Core.Bool.{Bool}
use mathlib.Core.Option.{Option, none, some}
use mathlib.Core.List.{List, [], ◌∷◌}
use native.Mathlib.Omega.{arith}
use custom_waf.Base.Tests.{if◌then◌else◌, Bool-cases}
use custom_waf.Base.Lists.{length, In}
use custom_waf.Base.Class.{Eq, ◌==◌}

-- The entry, if its value passes the test.
abbrev pub keep_if {ℓ} : {V : Type ℓ} → (V → Bool) → Option V → Option V
keep_if p none = none
keep_if p (some v) = if p v then some v else none

-- `for k, v := range m { out[k] = f(v) }`, for the distinct keys of a map.
unfoldable pub map_values : {K V W : Type 0} → (V → W) → List (K × V) → List (K × W)
map_values f [] = []
map_values f ((k, v) ∷ m) = (k, f v) ∷ map_values f m

-- What is read there is the image of what was read.
abbrev pub map_found : {V W : Type 0} → (V → W) → Option V → Option W
map_found f none = none
map_found f (some v) = some (f v)

module _ {ℓ} {K : Type ℓ} ⦃e : Eq K⦄ {V : Type ℓ} where
  -- `v, ok := m[k]`
  unfoldable pub lookup : K → List (K × V) → Option V
  lookup key [] = none
  lookup key ((i, w) ∷ rest) = if i == key then some w else lookup key rest

  -- `m[k] = v`
  unfoldable pub insert : K → V → List (K × V) → List (K × V)
  insert key new [] = (key, new) ∷ []
  insert key new ((i, w) ∷ rest) =
      let later = insert key new rest in if i == key then (key, new) ∷ rest else (i, w) ∷ later

  -- `delete(m, k)`
  unfoldable pub erase : K → List (K × V) → List (K × V)
  erase k [] = []
  erase k ((j, w) ∷ m) = let rest = erase k m in if j == k then rest else (j, w) ∷ rest

  -- `for k, v := range m { if !p(v) { delete(m, k) } }`
  unfoldable pub retain : (V → Bool) → List (K × V) → List (K × V)
  retain p [] = []
  retain p ((j, w) ∷ m) = let rest = retain p m in if p w then (j, w) ∷ rest else rest

  -- Each key stands once, as in every Go map.
  abbrev pub Distinct : List (K × V) → Type ℓ
  Distinct [] = Unit
  Distinct ((k, v) ∷ m) = (lookup k m ≡ none) × Distinct m

  pub lookup-insert :
      (key i : K) (new : V) (rest : List (K × V))
      → lookup i (insert key new rest) ≡ (if key == i then some new else lookup i rest)
  unfolding lookup insert
  lookup-insert key i new [] = refl
  lookup-insert key i new ((j, w) ∷ rest) =
      ground (arith, lookup-insert key i new rest, e.beq_iff j key, e.beq_iff j i, e.beq_iff key i)

  pub lookup-erase :
      (k j : K) (m : List (K × V)) → lookup j (erase k m) ≡ (if k == j then none else lookup j m)
  unfolding lookup erase
  lookup-erase k j [] = ground arith
  lookup-erase k j ((i, w) ∷ m) =
      ground (arith, e.beq_iff k j, e.beq_iff i k, e.beq_iff i j, lookup-erase k j m)

  pub erase_of_none : (k : K) (m : List (K × V)) → lookup k m ≡ none → erase k m ≡ m
  unfolding erase lookup
  erase_of_none k [] h = refl
  erase_of_none k ((j, w) ∷ m) h = ground (arith, erase_of_none k m)

  pub length-erase-le : (k : K) (m : List (K × V)) → length (erase k m) ≤ length m
  unfolding erase
  length-erase-le k [] = omega arith
  length-erase-le k ((j, w) ∷ m) = ground (arith, length-erase-le k m)

  -- An entry that is erased is no longer counted.
  pub length-erase-lt :
      (k : K) (v : V) (m : List (K × V)) → lookup k m ≡ some v → suc (length (erase k m)) ≤ length m
  unfolding erase lookup
  length-erase-lt k v [] h = absurd (cc)
  length-erase-lt k v ((j, w) ∷ m) h = ground (arith, length-erase-lt k v m, length-erase-le k m)

  lookup-retain-none :
      (p : V → Bool) (j : K) (m : List (K × V)) → lookup j m ≡ none → lookup j (retain p m) ≡ none
  unfolding lookup retain
  lookup-retain-none p j [] h = refl
  lookup-retain-none p j ((i, w) ∷ m) h = ground (arith, e.beq_iff i j, lookup-retain-none p j m)

  pub lookup-retain :
      (p : V → Bool) (j : K) (m : List (K × V))
      → Distinct m
      → lookup j (retain p m) ≡ keep_if p (lookup j m)
  unfolding lookup retain
  lookup-retain p j [] d = refl
  lookup-retain p j ((i, w) ∷ m) d =
      ground (arith, e.beq_iff i j, lookup-retain p j m d.1, lookup-retain-none p i m d.0)

  pub insert-Distinct : (k : K) (v : V) (m : List (K × V)) → Distinct m → Distinct (insert k v m)
  unfolding insert lookup
  insert-Distinct k v [] d = (refl, tt)
  insert-Distinct k v ((i, w) ∷ m) d =
      ground (arith, e.beq_iff i k, e.beq_iff k i, lookup-insert k i v m, insert-Distinct k v m d.1)

  pub erase-Distinct : (k : K) (m : List (K × V)) → Distinct m → Distinct (erase k m)
  unfolding erase lookup
  erase-Distinct k [] d = tt
  erase-Distinct k ((i, w) ∷ m) d = ground (arith, lookup-erase k i m, erase-Distinct k m d.1)

  pub retain-Distinct : (p : V → Bool) (m : List (K × V)) → Distinct m → Distinct (retain p m)
  unfolding retain lookup
  retain-Distinct p [] d = tt
  retain-Distinct p ((i, w) ∷ m) d =
      ground (arith, lookup-retain-none p i m d.0, retain-Distinct p m d.1)

  pub length-retain-le : (p : V → Bool) (m : List (K × V)) → length (retain p m) ≤ length m
  unfolding retain
  length-retain-le p [] = omega arith
  length-retain-le p ((i, w) ∷ m) = ground (arith, length-retain-le p m)

module _ {K V : Type 0} ⦃e : Eq K⦄ where
  -- An entry is found by its key, and what is found is an entry.
  pub In-of_lookup : (k : K) (v : V) (m : List (K × V)) → lookup k m ≡ some v → In (k, v) m
  unfolding lookup
  In-of_lookup k v [] h = cc
  In-of_lookup k v ((j, w) ∷ m) h = elim (Bool-cases (j == k)) [
    | inl y ↦ inl (ground (arith, e.beq_iff j k))
    | inr n ↦ inr (In-of_lookup k v m (ground arith))
  ]

  not-In_of_none : (k : K) (v : V) (m : List (K × V)) → lookup k m ≡ none → In (k, v) m → ⊥
  unfolding lookup
  not-In_of_none k v [] h i = i
  not-In_of_none k v ((j, w) ∷ m) h (inl y) = ground (arith, e.beq_iff j k)
  not-In_of_none k v ((j, w) ∷ m) h (inr i) = not-In_of_none k v m (ground arith) i

  pub lookup_of_In :
      (k : K) (v : V) (m : List (K × V)) → Distinct m → In (k, v) m → lookup k m ≡ some v
  unfolding lookup
  lookup_of_In k v [] d i = absurd i
  lookup_of_In k v ((j, w) ∷ m) d (inl y) = ground (arith, e.beq_iff j k)
  lookup_of_In k v ((j, w) ∷ m) d (inr i) = ground (
    arith,
    e.beq_iff j k,
    lookup_of_In k v m d.1 i,
    λ (c : lookup k m ≡ none). not-In_of_none k v m c i,
  )

pub lookup-map_values :
    {K V W : Type 0} ⦃e : Eq K⦄ (f : V → W) (k : K) (m : List (K × V))
    → lookup k (map_values f m) ≡ map_found f (lookup k m)
unfolding lookup map_values
lookup-map_values f k [] = refl
lookup-map_values f k ((j, w) ∷ m) = ground (arith, lookup-map_values f k m)
