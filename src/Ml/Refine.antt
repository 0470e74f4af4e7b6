-- ===== src/Ml/Refine.antt =====
-- The cache of internal/ml/cache.go against its specification.

use mathlib.Core.Path.{subst}
use custom_waf.Ml.Cache.{CacheEntry, PredictionCache, evict, evict_one, back}
use custom_waf.Base.{
  ℕ, ◌≤◌, ◌≡◌, sym, ◌∙◌, none, some, List, arith, Bytes, Bytes_eq, String_eq, ℕ_eq, lookup, zero,
  suc, refl, inl, inr, [], ◌∷◌, bytes_beq_iff, ltb, Bool-cases, insert, length, bytes_beq_self,
  take_of_length-le,
}
use custom_waf.Base.{
  erase, Distinct, take, lookup-erase, lookup-insert, erase-Distinct, length-erase-lt,
}
use custom_waf.Ml.Linked.{
  Elements, addresses, addresses-erase, element_of, contents, back_last, address_of,
  length-contents,
}

module _ {V : Type 0} where
  -- The list and the index agree, and the next address is new.
  pub record Agrees (m : Elements V) (index : List (Bytes × ℕ)) (fresh : ℕ) : Type 0 where
    pub indexed : (k : Bytes) → lookup k index ≡ lookup k (addresses m)
    pub distinct : Distinct m
    pub by_key : Distinct (addresses m)
    pub unused : (a : ℕ) → fresh ≤ a → lookup a m ≡ none

  pub erase-Agrees :
      (m : Elements V) (index : List (Bytes × ℕ)) (fresh : ℕ) (k : Bytes) (a : ℕ)
      → Agrees m index fresh
      → lookup k (addresses m) ≡ some a
      → Agrees (erase a m) (erase k index) fresh
  erase-Agrees m index fresh k a h l = record {
    indexed = λ j.
        lookup-erase k j index
        ∙ rw (h.indexed j) (
            sym
              (rw (addresses-erase k a m h.distinct h.by_key l) (lookup-erase k j (addresses m))));
    distinct = erase-Distinct a m h.distinct;
    by_key =
        rw (addresses-erase k a m h.distinct h.by_key l) (erase-Distinct k (addresses m) h.by_key);
    unused = λ b f. lookup-erase a b m ∙ rw (h.unused b f) (ground arith);
  }

  pub front-Agrees :
      (m : Elements V) (index : List (Bytes × ℕ)) (fresh : ℕ) (ent : CacheEntry V) (a : ℕ)
      → Agrees m index fresh
      → lookup ent.key (addresses m) ≡ some a
      → Agrees ((a, ent) ∷ erase a m) index fresh
  unfolding lookup
  front-Agrees m index fresh ent a h l =
      let gone = addresses-erase ent.key a m h.distinct h.by_key l in
      let (old, there, _, _) = element_of ent.key a m h.distinct l in
      record {
        indexed = λ j.
            h.indexed j
            ∙ rw (gone, lookup-erase ent.key j (addresses m))
                (ground (arith, l, bytes_beq_iff ent.key j));
        distinct =
            (lookup-erase a a m ∙ ground (arith, ℕ_eq.beq_iff a a), erase-Distinct a m h.distinct);
        by_key = (
          rw gone (lookup-erase ent.key ent.key (addresses m) ∙ rw (bytes_beq_self ent.key) refl),
          rw gone (erase-Distinct ent.key (addresses m) h.by_key),
        );
        unused = λ b f. ground (arith, h.unused b f, lookup-erase a b m, there, ℕ_eq.beq_iff a b);
      }

  pub new-Agrees :
      (m : Elements V) (index : List (Bytes × ℕ)) (fresh : ℕ) (ent : CacheEntry V)
      → Agrees m index fresh
      → lookup ent.key (addresses m) ≡ none
      → Agrees ((fresh, ent) ∷ m) (insert ent.key fresh index) (suc fresh)
  unfolding lookup
  new-Agrees m index fresh ent h l = record {
    indexed = λ j. lookup-insert ent.key j fresh index ∙ rw (h.indexed j) refl;
    distinct = (h.unused fresh (omega arith), h.distinct);
    by_key = (l, h.by_key);
    unused = λ b f. ground (arith, h.unused b, ℕ_eq.beq_iff fresh b);
  }

  -- A cache in good order.
  pub record IsSound (c : PredictionCache V) : Type 0 where
    pub agrees : Agrees c.ll c.index c.fresh
    pub bounded : length c.ll ≤ c.capacity

  -- The limits of one cache are those of another.
  abbrev pub Alike : PredictionCache V → PredictionCache V → Type 0
  Alike c d = (c.capacity ≡ d.capacity) × (c.ttl ≡ d.ttl)

  evict_none : (n : ℕ) (c : PredictionCache V) → length c.ll ≤ c.capacity → evict n c ≡ c
  unfolding evict
  evict_none zero c h = refl
  evict_none (suc n) c h = ground arith

  -- The list is cut to the capacity, and nothing else changes.
  abbrev pub Evicted : PredictionCache V → PredictionCache V → Type 0
  Evicted c c' = IsSound c' × Alike c' c × (contents c'.ll ≡ take c.capacity (contents c.ll))

  -- A list that is one too long loses its last element.
  evict_one-Evicted :
      (c : PredictionCache V) (x : ℕ × CacheEntry V) (m : Elements V)
      → let d = record c { ll = x ∷ m } in
        Agrees d.ll d.index d.fresh → length m ≡ d.capacity → Evicted d (evict_one (back d.ll) d)
  unfolding evict_one
  evict_one-Evicted c x m h b =
      let (a, e, k, l, t) = back_last x m h.distinct in
      let found = address_of a e (x ∷ m) h.by_key l in
      let short = length-erase-lt a e (x ∷ m) l in
      rw k (
        record {
          agrees = erase-Agrees (x ∷ m) c.index c.fresh e.key a h found;
          bounded = omega (arith, short, b);
        },
        (refl, refl),
        t ∙ rw b refl,
      )

  short-Evicted :
      (n : ℕ) (c : PredictionCache V)
      → Agrees c.ll c.index c.fresh
      → length c.ll ≤ c.capacity
      → Evicted c (evict n c)
  short-Evicted n c h b = subst (Evicted c) (sym (evict_none n c b)) (
    record { agrees = h; bounded = b },
    (refl, refl),
    sym (take_of_length-le c.capacity (contents c.ll) (rw (length-contents c.ll) b)),
  )

  pub evict-Evicted :
      (n : ℕ) (m : Elements V) (c : PredictionCache V)
      → let d = record c { ll = m } in
        Agrees d.ll d.index d.fresh → length d.ll ≤ suc d.capacity → Evicted d (evict (suc n) d)
  unfolding evict
  evict-Evicted n [] c h b = short-Evicted (suc n) (record c { ll = [] }) h (omega arith)
  evict-Evicted n (x ∷ m) c h b = elim (Bool-cases (ltb c.capacity (suc (length m)))) [
    | inl y ↦
        let d = record c { ll = x ∷ m } in
        let one = evict_one-Evicted c x m h (ground arith) in
        rw (y, evict_none n (evict_one (back d.ll) d) one.0.bounded) one
    | inr k ↦ short-Evicted (suc n) (record c { ll = x ∷ m }) h (ground arith)
  ]
