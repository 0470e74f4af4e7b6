-- ===== src/Ml/Held.antt =====
-- An entry among the first n of the cache's list in internal/ml/cache.go.
use custom_waf.Base.{
  ℕ, zero, suc, ◌≤◌, ◌≡◌, refl, ap, ◌∙◌, inl, inr, false, some, List, [], ◌∷◌, arith, Bytes,
  Bytes_eq, String_eq, ℕ_eq, bytes_beq, bytes_beq_iff, Bool-cases, lookup,
}
use custom_waf.Base.{erase, take}

module _ {V : Type 0} where
  -- The first n entries hold this answer for the key.
  abbrev pub Near : ℕ → Bytes → V → List (Bytes × V) → Type 0
  Near n key v l = lookup key (take n l) ≡ some v

  pub Near-more :
      (n : ℕ) (key : Bytes) (v : V) (l : List (Bytes × V)) → Near n key v l → Near (suc n) key v l
  unfolding lookup
  Near-more zero key v l h = absurd (cc)
  Near-more (suc n) key v [] h = h
  Near-more (suc n) key v ((i, w) ∷ l) h = ground (arith, Near-more n key v l)

  pub Near-found :
      (n : ℕ) (key : Bytes) (v : V) (l : List (Bytes × V)) → Near n key v l → lookup key l ≡ some v
  unfolding lookup
  Near-found zero key v l h = absurd (cc)
  Near-found (suc n) key v [] h = h
  Near-found (suc n) key v ((i, w) ∷ l) h = ground (arith, Near-found n key v l)

  -- An entry of another key goes.
  pub Near-erase :
      (n : ℕ) (key j : Bytes) (v : V) (l : List (Bytes × V))
      → bytes_beq j key ≡ false
      → Near n key v l
      → Near n key v (erase j l)
  unfolding lookup erase
  Near-erase zero key j v l ne h = absurd (cc)
  Near-erase (suc n) key j v [] ne h = h
  Near-erase (suc n) key j v ((i, w) ∷ l) ne h = elim (Bool-cases (bytes_beq i j)) [
    | inl y ↦
        let e : i ≡ j = (bytes_beq_iff i j).0 y in
        let f : bytes_beq i key ≡ false = rw e ne in
        let g : Near n key v l = rw f at h in
        rw y (Near-more n key v (erase j l) (Near-erase n key j v l ne g))
    | inr n' ↦ rw n' (elim (Bool-cases (bytes_beq i key)) [
      | inl z ↦ let g = rw z at h in rw z g
      | inr z ↦ let g = rw z at h in rw z (Near-erase n key j v l ne g)
    ])
  ]

  -- An entry of another key comes to the front.
  pub Near-behind :
      (n : ℕ) (key j : Bytes) (v w : V) (l : List (Bytes × V))
      → bytes_beq j key ≡ false
      → Near n key v l
      → Near (suc n) key v ((j, w) ∷ erase j l)
  unfolding lookup
  Near-behind n key j v w l ne h = rw ne (Near-erase n key j v l ne h)

  take-take : (n m : ℕ) (l : List (Bytes × V)) → n ≤ m → take n (take m l) ≡ take n l
  take-take zero m l h = refl
  take-take (suc n) zero l h = absurd (omega (arith, h))
  take-take (suc n) (suc m) [] h = refl
  take-take (suc n) (suc m) (x ∷ l) h = ap (λ r. x ∷ r) (take-take n m l (omega (arith, h)))

  -- What is cut off lies behind.
  pub Near-take :
      (n m : ℕ) (key : Bytes) (v : V) (l : List (Bytes × V))
      → n ≤ m
      → Near n key v l
      → Near n key v (take m l)
  Near-take n m key v l h k = ap (lookup key) (take-take n m l h) ∙ k
