-- ===== src/Api/Restored.antt =====
-- The ring of internal/api/logbuffer.go after a restart.
use custom_waf.Base.{
  ℕ, suc, ◌+◌, ◌-◌, ◌%◌, ◌≡◌, refl, sym, ap, ◌∙◌, inl, inr, false, Option, none, some, List, [],
  ◌∷◌, ◌++◌, map, arith, Bytes, Bytes_eq, String_eq, ℕ_eq, bytes_beq, if◌then◌else◌, ltb,
  Bool-cases, Option-cases, length,
}
use custom_waf.Base.{drop}
use custom_waf.Api.Ring.{
  LogRing, add, scan, collect, flatten, restore_from_file, empty_circle, new_log_ring, scanned,
}
use custom_waf.Api.Replay.{Holds, add_entry, added, scan-Holds, collect-map}

zero_plus : (i : ℕ) → 0 + i ≡ i
zero_plus i = omega arith

module _ {A : Type 0} where
  map-some-append : (q : List A) (x : A) → map some q ++ (some x ∷ []) ≡ map some (q ++ (x ∷ []))
  map-some-append [] x = refl
  map-some-append (y ∷ q) x = ap (◌∷◌ (some y)) (map-some-append q x)

  length-map-some : (q : List A) → length (map some q) ≡ length q
  length-map-some [] = refl
  length-map-some (y ∷ q) = ap suc (length-map-some q)

  drop-map-some : (q : List A) → drop 1 (map some q) ≡ map some (drop 1 q)
  drop-map-some [] = refl
  drop-map-some (y ∷ q) = refl

  add-some :
      (q : List A) (x : A)
      → add (record { buf = map some q }) (some x) ≡ record { buf = map some (add_entry q x) }
  unfolding add
  add-some q x =
      rw (map-some-append q x, length-map-some (q ++ (x ∷ [])))
        (elim (Bool-cases (ltb 1000 (length (q ++ (x ∷ []))))) [
          | inl y ↦ rw (y, drop-map-some (q ++ (x ∷ []))) refl
          | inr n ↦ rw n refl
        ])

module _ {A : Type 0} (decode : Bytes → Option A) where
  -- A decoded entry is added as it was when it was logged.
  abbrev pub replay_entry : LogRing A → Option A → LogRing A
  replay_entry r none = r
  replay_entry r (some x) = add r (some x)

  -- The lines of a log, added one by one.
  unfoldable pub replay : LogRing A → List Bytes → LogRing A
  replay r [] = r
  replay r (raw ∷ lines) =
      replay (if bytes_beq raw [] then r else replay_entry r (decode raw)) lines

  replay-added :
      (lines : List Bytes) (q : List A)
      → replay (record { buf = map some q }) lines
        ≡ record { buf = map some (added decode q lines) }
  unfolding replay added
  replay-added [] q = refl
  replay-added (raw ∷ lines) q = elim (Bool-cases (bytes_beq raw [])) [
    | inl y ↦ rw y (replay-added lines q)
    | inr n ↦ elim (Option-cases (decode raw)) [
      | inl o ↦ rw (n, o) (replay-added lines q)
      | inr (x, o) ↦ rw (n, o, add-some q x) (replay-added lines (add_entry q x))
    ]
  ]

  empty-Holds : Holds (empty_circle {A = A}) []
  empty-Holds = record {
    counted = omega arith;
    bounded = omega arith;
    inside = omega arith;
    read = λ i l. absurd (omega (arith, l));
  }

-- Restart: restoring from a log file, with its circular array and its index arithmetic, leaves
-- the ring that adding the file's entries one by one to an empty ring leaves, with empty lines
-- and lines that do not decode left out, and reports its length.
pub restore_replays :
    {A : Type 0} (decode : Bytes → Option A) (r : LogRing A) (path : Bytes) (lines : List Bytes)
    → bytes_beq path [] ≡ false
    → let replayed = replay decode new_log_ring lines in
      restore_from_file decode r path (scanned lines) ≡ (replayed, some (length replayed.buf))
unfolding restore_from_file flatten
restore_replays decode r path lines h =
    let c = scan decode empty_circle lines in
    let q = added decode [] lines in
    let held = scan-Holds decode lines empty_circle [] (empty-Holds decode) in
    let k = replay-added decode lines [] in
    let start = (c.head + 1000 - c.count) % 1000 in
    let at = λ (t : ℕ). c.ring ((start + t) % 1000) in
    let flat : collect c.ring start 0 c.count ≡ map some q =
      ap (collect c.ring start 0) held.counted
      ∙ collect-map q c.ring start 0 (λ i l. ap at (zero_plus i) ∙ held.read i l) in
    let n : c.count ≡ length (map some q) = held.counted ∙ sym (length-map-some q) in
    rw (h, k) (λ i. (record { buf = flat i }, some (n i)))
