-- ===== src/Ml/Linked.antt =====
-- The linked list and the index of internal/ml/cache.go agree: the index is the keys of the list,
-- with the addresses of their elements.
use custom_waf.Base.{
  ℕ, suc, ◌≡◌, refl, ap, inl, inr, none, some, List, [], ◌∷◌, arith, ℤ, Bytes, Bytes_eq, String_eq,
  ℕ_eq, bytes_beq, bytes_beq_iff, Bool-cases, lookup, length, erase_of_none,
}
use custom_waf.Base.{erase, Distinct, take}
use custom_waf.Ml.Cache.{CacheEntry, back}

abbrev pub Elements : Type 0 → Type 0
Elements V = List (ℕ × CacheEntry V)

module _ {V : Type 0} where
  -- The addresses by key.
  abbrev pub addresses : Elements V → List (Bytes × ℕ)
  addresses [] = []
  addresses ((a, e) ∷ m) = (e.key, a) ∷ addresses m

  -- The values and the ends of their lives by key.
  abbrev pub contents : Elements V → List (Bytes × (V × ℤ))
  contents [] = []
  contents ((a, e) ∷ m) = (e.key, (e.value, e.expires_at)) ∷ contents m

  pub length-contents : (m : Elements V) → length (contents m) ≡ length m
  length-contents [] = refl
  length-contents ((a, e) ∷ m) = ap suc (length-contents m)

  pub contents-none :
      (k : Bytes) (m : Elements V) → lookup k (addresses m) ≡ none → lookup k (contents m) ≡ none
  unfolding lookup
  contents-none k [] h = refl
  contents-none k ((a, e) ∷ m) h = ground (arith, contents-none k m)

  -- An element that the index finds holds its key.
  pub element_of :
      (k : Bytes) (a : ℕ) (m : Elements V)
      → Distinct m
      → lookup k (addresses m) ≡ some a
      → (e : CacheEntry V) × (lookup a m ≡ some e)
        × (e.key ≡ k)
        × (lookup k (contents m) ≡ some (e.value, e.expires_at))
  unfolding lookup
  element_of k a [] d h = absurd (cc)
  element_of k a ((b, e) ∷ m) d h = elim (Bool-cases (bytes_beq e.key k)) [
    | inl y ↦ (e, ground (arith, ℕ_eq.beq_iff b a), (bytes_beq_iff e.key k).0 y, rw y refl)
    | inr n ↦
        let (e', l, q, c) = element_of k a m d.1 (ground arith) in
        (e', ground (arith, ℕ_eq.beq_iff b a), q, ground arith)
  ]

  -- The key of an element finds it.
  pub address_of :
      (a : ℕ) (e : CacheEntry V) (m : Elements V)
      → Distinct (addresses m)
      → lookup a m ≡ some e
      → lookup e.key (addresses m) ≡ some a
  unfolding lookup
  address_of a e [] d h = cc
  address_of a e ((b, f) ∷ m) d h = elim (Bool-cases (ℕ_eq.beq b a)) [
    | inl y ↦ ground (arith, ℕ_eq.beq_iff b a, bytes_beq_iff f.key e.key)
    | inr n ↦ ground (arith, address_of a e m d.1, bytes_beq_iff f.key e.key)
  ]

  -- To erase an element is to erase its key.
  pub addresses-erase :
      (k : Bytes) (a : ℕ) (m : Elements V)
      → Distinct m
      → Distinct (addresses m)
      → lookup k (addresses m) ≡ some a
      → addresses (erase a m) ≡ erase k (addresses m)
  unfolding lookup erase
  addresses-erase k a [] d u h = refl
  addresses-erase k a ((b, e) ∷ m) d u h = elim (Bool-cases (bytes_beq e.key k)) [
    | inl y ↦ ground (
      arith,
      ℕ_eq.beq_iff b a,
      bytes_beq_iff e.key k,
      erase_of_none b m d.0,
      erase_of_none e.key (addresses m) u.0,
    )
    | inr n ↦
        let (e', l, q, c) = element_of k a m d.1 (ground arith) in
        ground (arith, ℕ_eq.beq_iff b a, addresses-erase k a m d.1 u.1)
  ]

  pub contents-erase :
      (k : Bytes) (a : ℕ) (m : Elements V)
      → Distinct m
      → Distinct (addresses m)
      → lookup k (addresses m) ≡ some a
      → contents (erase a m) ≡ erase k (contents m)
  unfolding lookup erase
  contents-erase k a [] d u h = refl
  contents-erase k a ((b, e) ∷ m) d u h = elim (Bool-cases (bytes_beq e.key k)) [
    | inl y ↦ ground (
      arith,
      ℕ_eq.beq_iff b a,
      bytes_beq_iff e.key k,
      erase_of_none b m d.0,
      erase_of_none e.key (contents m) (contents-none e.key m u.0),
    )
    | inr n ↦
        let (e', l, q, c) = element_of k a m d.1 (ground arith) in
        ground (arith, ℕ_eq.beq_iff b a, contents-erase k a m d.1 u.1)
  ]

  -- The last element, and what is left without it.
  pub back_last :
      (x : ℕ × CacheEntry V) (m : Elements V)
      → Distinct (x ∷ m)
      → (a : ℕ) × (e : CacheEntry V) × (back (x ∷ m) ≡ some (a, e))
        × (lookup a (x ∷ m) ≡ some e)
        × (contents (erase a (x ∷ m)) ≡ take (length m) (contents (x ∷ m)))
  unfolding lookup erase
  back_last (b, f) [] d =
      (b, f, refl, ground (arith, ℕ_eq.beq_iff b b), ground (arith, ℕ_eq.beq_iff b b))
  back_last (b, f) (y ∷ m) d =
      let (a, e, k, l, t) = back_last y m d.1 in
      (a, e, k, ground (arith, ℕ_eq.beq_iff b a), ground (arith, ℕ_eq.beq_iff b a))
