-- ===== src/Ml/Replay.antt =====
-- The cache of internal/ml/cache.go answers as its specification does.
use custom_waf.Ml.Linked.{
  contents, addresses, contents-none, element_of, contents-erase, length-contents,
}
use custom_waf.Ml.Cache.{
  PredictionCache, put, get_at, put_at, read_entry, CacheEntry, get, put, new_prediction_cache,
}
use custom_waf.Base.{
  ℕ, suc, ◌+◌, ◌≡◌, refl, sym, ap, ◌∙◌, inl, inr, some, ◌∷◌, arith, pos, Bytes, Bytes_eq, String_eq,
  ℕ_eq, Bool-cases, Option-cases, lookup, insert, length, erase_of_none, length-erase-lt,
  take_of_length-le, erase, ltb_ℤ, take, Option, List, [], ℤ, if◌then◌else◌, leb_ℤ, pos_part,
}
use custom_waf.Base.{take}
use mathlib.Core.Path.{subst}
use custom_waf.Ml.Refine.{IsSound, Alike, evict-Evicted, new-Agrees, erase-Agrees, front-Agrees}
use custom_waf.Ml.Lru.{Lru, lru_put, lru_get}

module _ {V : Type 0} where
  -- The cache is in good order and its list is the abstract one.
  pub record Refines (c : PredictionCache V) (l : Lru V) : Type 0 where
    pub sound : IsSound c
    pub same : contents c.ll ≡ l

  pub get-Refines :
      (hash : Bytes → Bytes) (c : PredictionCache V) (now : ℕ) (text : Bytes)
      → IsSound c
      → let r = get hash c now text in
        let s = lru_get (contents c.ll) now (hash text) in
        Refines r.0 s.0 × Alike r.0 c × (r.1 ≡ s.1)
  unfolding get get_at read_entry lru_get
  get-Refines hash c now text h = elim (Option-cases (lookup (hash text) (addresses c.ll))) [
    | inl n ↦
        let gone = contents-none (hash text) c.ll n in
        rw (get_at, h.agrees.indexed (hash text), n, gone)
          (
            record { sound = record { agrees = h.agrees; bounded = h.bounded }; same = refl },
            (refl, refl),
            refl,
          )
    | inr (a, s) ↦
        let (e, l, q, k) = element_of (hash text) a c.ll h.agrees.distinct s in
        let ce = contents-erase (hash text) a c.ll h.agrees.distinct h.agrees.by_key s in
        let short = length-erase-lt a e c.ll l in
        let out = erase-Agrees c.ll c.index c.fresh (hash text) a h.agrees s in
        let front =
          front-Agrees c.ll c.index c.fresh e a h.agrees
            (subst (λ j. lookup j (addresses c.ll) ≡ some a) (sym q) s) in
        elim (Bool-cases (ltb_ℤ e.expires_at (pos now))) [
          | inl y ↦
              rw (get_at, h.agrees.indexed (hash text), s, read_entry, l, k, y)
                (
                  record {
                    sound = record { agrees = out; bounded = omega (arith, short, h.bounded) };
                    same = ce;
                  },
                  (refl, refl),
                  refl,
                )
          | inr n ↦
              rw (get_at, h.agrees.indexed (hash text), s, read_entry, l, k, n)
                (
                  record {
                    sound = record { agrees = front; bounded = omega (arith, short, h.bounded) };
                    same = λ i. (q i, (e.value, e.expires_at)) ∷ ce i;
                  },
                  (refl, refl),
                  refl,
                )
        ]
  ]

  pub put-Refines :
      (hash : Bytes → Bytes) (c : PredictionCache V) (now : ℕ) (text : Bytes) (resp : V)
      → IsSound c
      → let c' = put hash c now text resp in
        Refines c' (lru_put c.capacity (contents c.ll) (hash text) resp (pos (now + c.ttl)))
        × Alike c' c
  unfolding put put_at lru_put
  put-Refines hash c now text resp h =
      let key = hash text in
      let ent : CacheEntry V = record { key = key; value = resp; expires_at = pos (now + c.ttl) } in
      elim (Option-cases (lookup key (addresses c.ll))) [
        | inl n ↦
            let added = record c { index = insert key c.fresh c.index; fresh = suc c.fresh } in
            let v =
              evict-Evicted (length c.ll) ((c.fresh, ent) ∷ c.ll) added
                (new-Agrees c.ll c.index c.fresh ent h.agrees n) (omega (arith, h.bounded)) in
            rw
              (
                put_at,
                h.agrees.indexed key,
                n,
                erase_of_none key (contents c.ll) (contents-none key c.ll n),
              )
              (record { sound = v.0; same = v.2 }, v.1)
        | inr (a, s) ↦
            let (e, l, q, k) = element_of key a c.ll h.agrees.distinct s in
            let ce = contents-erase key a c.ll h.agrees.distinct h.agrees.by_key s in
            let short = length-erase-lt a e c.ll l in
            let fits =
              take_of_length-le c.capacity (contents ((a, ent) ∷ erase a c.ll)) (
                rw (length-contents ((a, ent) ∷ erase a c.ll)) (omega (arith, short, h.bounded))) in
            rw (put_at, h.agrees.indexed key, s)
              (
                record {
                  sound = record {
                    agrees = front-Agrees c.ll c.index c.fresh ent a h.agrees s;
                    bounded = omega (arith, short, h.bounded);
                  };
                  same =
                      sym fits
                      ∙ ap (λ m. take c.capacity ((key, (resp, pos (now + c.ttl))) ∷ m)) ce;
                },
                (refl, refl),
              )
      ]

-- A call of the cache: at a time, with a text, and what is stored.
pub data CacheCall (V : Type 0) : Type 0 where
  asks : ℕ → Bytes → CacheCall V
  stores : ℕ → Bytes → V → CacheCall V

module _ {V : Type 0} (hash : Bytes → Bytes) where
  -- What the reads of a run of calls answer.
  unfoldable pub cache_answers : PredictionCache V → List (CacheCall V) → List (Option V)
  cache_answers c [] = []
  cache_answers c (asks now text ∷ calls) =
      let r = get hash c now text in r.1 ∷ cache_answers r.0 calls
  cache_answers c (stores now text resp ∷ calls) = cache_answers (put hash c now text resp) calls

  -- The same by the specification.
  unfoldable pub lru_answers : ℕ → ℕ → Lru V → List (CacheCall V) → List (Option V)
  lru_answers capacity ttl l [] = []
  lru_answers capacity ttl l (asks now text ∷ calls) =
      let r = lru_get l now (hash text) in r.1 ∷ lru_answers capacity ttl r.0 calls
  lru_answers capacity ttl l (stores now text resp ∷ calls) =
      lru_answers capacity ttl (lru_put capacity l (hash text) resp (pos (now + ttl))) calls

  answers-Refines :
      (calls : List (CacheCall V)) (c : PredictionCache V)
      → IsSound c
      → cache_answers c calls ≡ lru_answers c.capacity c.ttl (contents c.ll) calls
  unfolding cache_answers lru_answers
  answers-Refines [] c h = refl
  answers-Refines (asks now text ∷ calls) c h =
      let (r, (k, t), e) = get-Refines hash c now text h in
      let ih = answers-Refines calls (get hash c now text).0 r.sound in
      λ i. e i ∷ (ih ∙ λ j. lru_answers (k j) (t j) (r.same j) calls) i
  answers-Refines (stores now text resp ∷ calls) c h =
      let (r, (k, t)) = put-Refines hash c now text resp h in
      let ih = answers-Refines calls (put hash c now text resp) r.sound in
      ih ∙ λ j. lru_answers (k j) (t j) (r.same j) calls

module _ {V : Type 0} where
  -- A cache with nothing in it.
  abbrev pub empty_cache : ℕ → ℕ → PredictionCache V
  empty_cache capacity ttl = record {
    capacity = capacity;
    ttl = ttl;
    ll = [];
    index = [];
    fresh = 0;
    hits = 0;
    misses = 0;
  }

  pub empty-Refines : (capacity ttl : ℕ) → Refines (empty_cache capacity ttl) []
  unfolding lookup
  empty-Refines capacity ttl = record {
    sound = record {
      agrees = record { indexed = λ k. refl; distinct = tt; by_key = tt; unused = λ a f. refl };
      bounded = omega arith;
    };
    same = refl;
  }

  new-Refines :
      (capacity ttl : ℤ) (c : PredictionCache V)
      → new_prediction_cache capacity ttl ≡ some c
      → Refines c []
  unfolding new_prediction_cache
  new-Refines capacity ttl c h = elim (Bool-cases (leb_ℤ capacity (pos 0))) [
    | inl y ↦ absurd (ground arith)
    | inr n ↦
        let t = if leb_ℤ ttl (pos 0) then 300000000000 else pos_part ttl in
        let e : empty_cache (pos_part capacity) t ≡ c = ground arith in
        subst (λ d. Refines d []) e (empty-Refines (pos_part capacity) t)
  ]

-- The cache refines its specification: from a new cache, whatever the hash, every run of reads
-- and writes is answered as by one list of keyed answers, last used first, that is cut to the
-- capacity at each write and forgets what has run out when it is read.
pub cache_refines :
    {V : Type 0} (hash : Bytes → Bytes) (capacity ttl : ℤ) (c : PredictionCache V)
    (calls : List (CacheCall V))
    → new_prediction_cache capacity ttl ≡ some c
    → cache_answers hash c calls ≡ lru_answers hash c.capacity c.ttl [] calls
cache_refines hash capacity ttl c calls h =
    let r = new-Refines capacity ttl c h in
    answers-Refines hash calls c r.sound
    ∙ ap (λ l. lru_answers hash c.capacity c.ttl l calls) r.same
