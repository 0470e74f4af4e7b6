-- ===== src/Ml/Recent.antt =====
-- An answer that is kept among the first entries of the list that internal/ml/cache.go keeps.

use custom_waf.Base.{
  ℕ, suc, ◌+◌, ◌≤◌, ◌≡◌, refl, inl, inr, false, some, List, ◌∷◌, arith, ℤ, pos, Bytes, Bytes_eq,
  String_eq, ℕ_eq, bytes_beq, Bool-cases, Option-cases, lookup, bytes_beq_self, zero, ◌<◌, none,
  bytes_beq_iff,
}
use custom_waf.Base.{erase, ltb_ℤ}
use custom_waf.Ml.Lru.{lru_get, lru_put}
use custom_waf.Ml.Held.{Near, Near-more, Near-found, Near-erase, Near-behind, Near-take}

module _ {V : Type 0} (cap end : ℕ) (key : Bytes) (out : V) where
  -- A read of another key.
  pub other_get :
      (n now : ℕ) (j : Bytes) (l : List (Bytes × (V × ℤ)))
      → bytes_beq j key ≡ false
      → Near n key (out, pos end) l
      → Near (suc n) key (out, pos end) (lru_get l now j).0
  unfolding lru_get
  other_get n now j l ne h = elim (Option-cases (lookup j l)) [
    | inl m ↦ rw m (Near-more n key (out, pos end) l h)
    | inr ((v, until), s) ↦ elim (Bool-cases (ltb_ℤ until (pos now))) [
      | inl y ↦
          rw (s, y)
            (Near-more n key (out, pos end) (erase j l) (Near-erase n key j (out, pos end) l ne h))
      | inr y ↦ rw (s, y) (Near-behind n key j (out, pos end) (v, until) l ne h)
    ]
  ]

  -- A read of the key itself is a hit, and brings it to the front.
  pub own_get :
      (n now : ℕ) (l : List (Bytes × (V × ℤ)))
      → now ≤ end
      → Near n key (out, pos end) l
      → ((lru_get l now key).1 ≡ some out) × Near (suc n) key (out, pos end) (lru_get l now key).0
  unfolding lru_get lookup
  own_get n now l live h =
      let f = Near-found n key (out, pos end) l h in
      let y : ltb_ℤ (pos end) (pos now) ≡ false = ground (arith, live) in
      rw (f, y) (refl, rw (bytes_beq_self key) refl)

  -- A read of another key that answers nothing brings nothing to the front.
  pub other_miss :
      (n now : ℕ) (j : Bytes) (l : List (Bytes × (V × ℤ)))
      → bytes_beq j key ≡ false
      → (lru_get l now j).1 ≡ none
      → Near n key (out, pos end) l
      → Near n key (out, pos end) (lru_get l now j).0
  unfolding lru_get
  other_miss n now j l ne e h = elim (Option-cases (lookup j l)) [
    | inl m ↦ rw m h
    | inr ((v, until), s) ↦ elim (Bool-cases (ltb_ℤ until (pos now))) [
      | inl y ↦ rw (s, y) (Near-erase n key j (out, pos end) l ne h)
      | inr y ↦ absurd (let k = rw (s, y) at e in cc)
    ]
  ]

  pub any_get :
      (n now : ℕ) (j : Bytes) (l : List (Bytes × (V × ℤ)))
      → now ≤ end
      → Near n key (out, pos end) l
      → Near (suc n) key (out, pos end) (lru_get l now j).0
  any_get n now j l live h = elim (Bool-cases (bytes_beq j key)) [
    | inl y ↦ rw ((bytes_beq_iff j key).0 y) (own_get n now l live h).1
    | inr ne ↦ other_get n now j l ne h
  ]

  -- A read that answers nothing is of another key.
  pub missed_other :
      (n now : ℕ) (j : Bytes) (l : List (Bytes × (V × ℤ)))
      → now ≤ end
      → Near n key (out, pos end) l
      → (lru_get l now j).1 ≡ none
      → bytes_beq j key ≡ false
  missed_other n now j l live h e = elim (Bool-cases (bytes_beq j key)) [
    | inl y ↦
        absurd
          (let k = rw ((bytes_beq_iff j key).0 y) at e in let o = (own_get n now l live h).0 in cc)
    | inr ne ↦ ne
  ]

  -- What is written for another key comes to the front.
  pub other_put :
      (n : ℕ) (j : Bytes) (v : V) (until : ℤ) (l : List (Bytes × (V × ℤ)))
      → suc n ≤ cap
      → bytes_beq j key ≡ false
      → Near n key (out, pos end) l
      → Near (suc n) key (out, pos end) (lru_put cap l j v until)
  unfolding lru_put
  other_put n j v until l room ne h =
      Near-take (suc n) cap key (out, pos end) ((j, (v, until)) ∷ erase j l) room
        (Near-behind n key j (out, pos end) (v, until) l ne h)

-- What was just stored stands first.
pub first_put :
    {V : Type 0} (cap : ℕ) (l : List (Bytes × (V × ℤ))) (key : Bytes) (out : V) (done ttl ttl' : ℕ)
    → ttl ≡ ttl'
    → 0 < cap
    → Near 1 key (out, pos (done + ttl')) (lru_put cap l key out (pos (done + ttl)))
unfolding lru_put lookup
first_put zero l key out done ttl ttl' e h = absurd (omega (arith, h))
first_put (suc cap) l key out done ttl ttl' e h = rw (bytes_beq_self key, e) refl
