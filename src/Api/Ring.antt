-- ===== src/Api/Ring.antt =====
-- internal/api/logbuffer.go: the last thousand log entries. An entry is an `A`; a pointer to one
-- is an option, of which nil is `none`.
use custom_waf.Base.{
  ℕ, zero, suc, ◌+◌, ◌-◌, ◌%◌, Option, none, some, List, [], ◌∷◌, ◌++◌, Bytes, Bytes_eq, String_eq,
  ℕ_eq, bytes_beq, if◌then◌else◌, ltb, eqb, length,
}
use custom_waf.Base.{drop}

abbrev pub log_buffer_capacity : ℕ
log_buffer_capacity = 1000

pub record LogRing (A : Type 0) : Type 0 where
  pub buf : List (Option A)

-- What opening the file gives: nothing to read, an error, or the lines that the scanner reads.
pub data LogFile : Type 0 where
  missing : LogFile
  unreadable : LogFile
  scanned : List Bytes → LogFile

-- The array that the restoring loop fills, by index, with where it writes next.
pub record Circle (A : Type 0) : Type 0 where
  pub ring : ℕ → Option A
  pub head : ℕ
  pub count : ℕ

module _ {A : Type 0} where
  abbrev pub new_log_ring : LogRing A
  new_log_ring = record { buf = [] }

  -- `add`
  unfoldable pub add : LogRing A → Option A → LogRing A
  add r entry =
      let longer = r.buf ++ (entry ∷ []) in
      if ltb log_buffer_capacity (length longer)
      then record { buf = drop 1 longer }
      else record { buf = longer }

  -- `snapshot`, a copy
  unfoldable pub snapshot_ring : LogRing A → List (Option A)
  snapshot_ring r = r.buf

  -- `clear`
  unfoldable pub clear : LogRing A → LogRing A
  clear r = record { buf = [] }

  abbrev pub empty_circle : Circle A
  empty_circle = record { ring = λ i. none; head = 0; count = 0 }

  -- `ring[head] = entry`, and what follows it in the loop.
  unfoldable pub push : Circle A → A → Circle A
  push c entry = record {
    ring = λ i. if eqb i c.head then some entry else c.ring i;
    head = (c.head + 1) % log_buffer_capacity;
    count = if ltb c.count log_buffer_capacity then suc c.count else c.count;
  }

  -- One line: an empty one and one that does not decode are skipped.
  abbrev pub push_decoded : Circle A → Option A → Circle A
  push_decoded c none = c
  push_decoded c (some entry) = push c entry

  unfoldable pub scan : (Bytes → Option A) → Circle A → List Bytes → Circle A
  unfolding push
  scan decode c [] = c
  scan decode c (raw ∷ lines) =
      scan decode (if bytes_beq raw [] then c else push_decoded c (decode raw)) lines

  -- The loop that flattens: `n` entries from index `i`.
  unfoldable pub collect : (ℕ → Option A) → ℕ → ℕ → ℕ → List (Option A)
  collect ring start i zero = []
  collect ring start i (suc n) =
      ring ((start + i) % log_buffer_capacity) ∷ collect ring start (suc i) n

  unfoldable pub flatten : Circle A → List (Option A)
  unfolding collect
  flatten c =
      let start = (c.head + log_buffer_capacity - c.count) % log_buffer_capacity in
      collect c.ring start 0 c.count

  -- `restoreFromFile`: the ring and the number of entries, none for an error.
  unfoldable pub restore_from_file :
      (Bytes → Option A) → LogRing A → Bytes → LogFile → LogRing A × Option ℕ
  unfolding scan flatten
  restore_from_file decode r path missing = (r, some 0)
  restore_from_file decode r path unreadable = (r, if bytes_beq path [] then some 0 else none)
  restore_from_file decode r path (scanned lines) =
      let c = scan decode empty_circle lines in
      if bytes_beq path [] then (r, some 0) else (record { buf = flatten c }, some c.count)
