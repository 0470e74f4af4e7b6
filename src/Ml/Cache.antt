-- ===== src/Ml/Cache.antt =====
-- internal/ml/cache.go: the LRU cache of predictions. The list of entries is a list of pairs of
-- an element's address and the entry it holds, the front first; the index maps a key to the
-- address. `fresh` is an address that was never used. A response is a `V`; `hash` is SHA-256.
use custom_waf.Base.{
  ℕ, zero, suc, ◌+◌, Option, none, some, List, [], ◌∷◌, ℤ, pos, Bytes, Bytes_eq, String_eq, ℕ_eq,
  if◌then◌else◌, ltb, lookup, insert, length, Float64, not, ◌&&◌, ◌++◌, leb, eqb,
}
use custom_waf.Base.{erase, ltb_ℤ, leb_ℤ, pos_part}

pub record CacheEntry (V : Type 0) : Type 0 where
  pub key : Bytes
  pub value : V
  pub expires_at : ℤ

pub record PredictionCache (V : Type 0) : Type 0 where
  pub capacity : ℕ
  pub ttl : ℕ
  pub ll : List (ℕ × CacheEntry V)
  pub index : List (Bytes × ℕ)
  pub fresh : ℕ
  pub hits : ℕ
  pub misses : ℕ

pub record CacheStats (F : Type 0) : Type 0 where
  pub size : ℕ
  pub capacity : ℕ
  pub hits : ℕ
  pub misses : ℕ
  pub hit_rate : F

-- `newPredictionCache`: no cache unless the capacity is positive; five minutes by default.
unfoldable pub new_prediction_cache : {V : Type 0} → ℤ → ℤ → Option (PredictionCache V)
new_prediction_cache capacity ttl =
    if leb_ℤ capacity (pos 0)
    then none
    else some (record {
      capacity = pos_part capacity;
      ttl = if leb_ℤ ttl (pos 0) then 300000000000 else pos_part ttl;
      ll = [];
      index = [];
      fresh = 0;
      hits = 0;
      misses = 0;
    })

module _ {V : Type 0} where
  -- `ll.MoveToFront(el)`, where the element is in the list.
  abbrev pub move_to_front : ℕ → CacheEntry V → PredictionCache V → PredictionCache V
  move_to_front el ent c = record c { ll = (el, ent) ∷ erase el c.ll }

  -- `ll.Remove(el); delete(index, key)`
  abbrev pub drop_entry : ℕ → Bytes → PredictionCache V → PredictionCache V
  drop_entry el key c = record c { ll = erase el c.ll; index = erase key c.index }

  -- `ll.Back()`
  abbrev pub back : List (ℕ × CacheEntry V) → Option (ℕ × CacheEntry V)
  back [] = none
  back (e ∷ []) = some e
  back (e ∷ f ∷ es) = back (f ∷ es)

  -- The entry at an element that was found.
  unfoldable pub read_entry :
      PredictionCache V → ℕ → Bytes → ℕ → Option (CacheEntry V) → PredictionCache V × Option V
  read_entry c now key el none = (c, none)
  read_entry c now key el (some ent) =
      if ltb_ℤ ent.expires_at (pos now)
      then (record (drop_entry el key c) { misses = suc c.misses }, none)
      else (record (move_to_front el ent c) { hits = suc c.hits }, some ent.value)

  unfoldable pub get_at : PredictionCache V → ℕ → Bytes → Option ℕ → PredictionCache V × Option V
  unfolding read_entry
  get_at c now key none = (record c { misses = suc c.misses }, none)
  get_at c now key (some el) = read_entry c now key el (lookup el c.ll)

  -- `Get`, of a cache that is there.
  unfoldable pub get :
      (Bytes → Bytes) → PredictionCache V → ℕ → Bytes → PredictionCache V × Option V
  unfolding get_at
  get hash c now text = let key = hash text in get_at c now key (lookup key c.index)

  -- One round of the loop that evicts.
  unfoldable pub evict_one : Option (ℕ × CacheEntry V) → PredictionCache V → PredictionCache V
  evict_one none c = c
  evict_one (some (el, ent)) c = drop_entry el ent.key c

  -- The loop, on fuel; each round removes an entry.
  unfoldable pub evict : ℕ → PredictionCache V → PredictionCache V
  unfolding evict_one
  evict zero c = c
  evict (suc n) c =
      let rest = evict n (evict_one (back c.ll) c) in
      if ltb c.capacity (length c.ll) then rest else c

  -- `Put` when the key has an element, and when it has none.
  unfoldable pub put_at : PredictionCache V → ℕ → Bytes → V → Option ℕ → PredictionCache V
  unfolding evict
  put_at c now key resp none =
      let ent : CacheEntry V = record { key = key; value = resp; expires_at = pos (now + c.ttl) } in
      evict (suc (length c.ll)) (record c {
        ll = (c.fresh, ent) ∷ c.ll;
        index = insert key c.fresh c.index;
        fresh = suc c.fresh;
      })
  put_at c now key resp (some el) =
      let ent : CacheEntry V = record { key = key; value = resp; expires_at = pos (now + c.ttl) } in
      move_to_front el ent c

  -- `Put`, of a cache and a response that are there.
  unfoldable pub put : (Bytes → Bytes) → PredictionCache V → ℕ → Bytes → V → PredictionCache V
  unfolding put_at
  put hash c now text resp = let key = hash text in put_at c now key resp (lookup key c.index)

-- `Stats`; a cache that is not there has none.
unfoldable pub stats : {F V : Type 0} ⦃fl : Float64 F⦄ → Option (PredictionCache V) → CacheStats F
stats ⦃fl⦄ none = record { size = 0; capacity = 0; hits = 0; misses = 0; hit_rate = fl.lit 0 0 }
stats ⦃fl⦄ (some c) = record {
  size = length c.ll;
  capacity = c.capacity;
  hits = c.hits;
  misses = c.misses;
  hit_rate =
      if ltb 0 (c.hits + c.misses)
      then fl.fdiv (fl.of_int (pos c.hits)) (fl.of_int (pos (c.hits + c.misses)))
      else fl.lit 0 0;
}

pub record CacheSnapshot (V : Type 0) : Type 0 where
  pub version : ℕ
  pub entries : List (CacheEntry V)
  pub hits : ℕ
  pub misses : ℕ

module _ {V : Type 0} where
  -- The entries that have not run out, the front first.
  unfoldable pub live_entries : ℕ → List (ℕ × CacheEntry V) → List (CacheEntry V)
  live_entries now [] = []
  live_entries now ((el, ent) ∷ m) =
      let rest = live_entries now m in if ltb_ℤ ent.expires_at (pos now) then rest else ent ∷ rest

  -- `Snapshot` of a cache that is there, without the encoding as JSON.
  unfoldable pub snapshot_cache : PredictionCache V → ℕ → CacheSnapshot V
  unfolding live_entries
  snapshot_cache c now = record {
    version = 1;
    entries = live_entries now c.ll;
    hits = c.hits;
    misses = c.misses;
  }

  -- The loop of `Restore`: live entries go to the back, until the list is full.
  unfoldable pub push_entries : ℕ → List (CacheEntry V) → PredictionCache V → PredictionCache V
  push_entries now [] c = c
  push_entries now (ent ∷ entries) c =
      let pushed = record c {
        ll = c.ll ++ ((c.fresh, ent) ∷ []);
        index = insert ent.key c.fresh c.index;
        fresh = suc c.fresh;
      } in
      let full = leb pushed.capacity (length pushed.ll) in
      let late = leb_ℤ ent.expires_at (pos now) in
      let rest = push_entries now entries (if late then c else pushed) in
      if not late && full then pushed else rest

  -- `Restore` of a cache that is there; the values of the entries are there too.
  unfoldable pub restore_cache : PredictionCache V → ℕ → CacheSnapshot V → PredictionCache V
  unfolding push_entries
  restore_cache c now snap =
      if eqb snap.version 1
      then push_entries now snap.entries
          (record c { ll = []; index = []; hits = snap.hits; misses = snap.misses })
      else c
