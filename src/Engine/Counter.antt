-- ===== src/Engine/Counter.antt =====
-- What the counters of internal/engine/tracker.go promise.
use custom_waf.Base.{
  ℕ, suc, ◌≤◌, ◌≡◌, refl, ap, ◌∙◌, not, Option, none, some, arith, ℤ, pos, Bytes, Bytes_eq,
  String_eq, ℕ_eq, bytes_beq, if◌then◌else◌, lookup,
}
use custom_waf.Base.{ltb_ℤ, keep_if, Distinct, lookup-insert, lookup-retain, ◌+ℤ◌}
use custom_waf.Engine.Tracker.{Tracker, TrackEntry, is_past, live_count, incr, get, sweep}

-- After an increment the counter stands at one more than it stood at, until its time to live is
-- over, and at 0 from then on; at any time every other counter stands where it stood.
pub get-incr :
    (t : Tracker) (now later : ℕ) (key k : Bytes) (ttl : ℤ)
    → get (incr t now key ttl).0 later k ≡ (
        if bytes_beq key k
        then (if ltb_ℤ (pos now +ℤ ttl) (pos later) then 0 else suc (get t now key))
        else get t later k)
unfolding get incr is_past
get-incr t now later key k ttl = ground (
  arith,
  lookup-insert key k
      (record { count = suc (live_count now (lookup key t)); expire_at = pos now +ℤ ttl }) t,
)

live_keep :
    (now later : ℕ) (o : Option TrackEntry)
    → now ≤ later
    → live_count later (keep_if (λ e. not (is_past now e)) o) ≡ live_count later o
unfolding is_past
live_keep now later none h = refl
live_keep now later (some e) h = ground arith

-- A sweep drops only what no later read can see: every counter reads the same, now and later. Keys
-- are distinct, as in a map.
pub get-sweep :
    (t : Tracker) (now later : ℕ) (key : Bytes)
    → Distinct t
    → now ≤ later
    → get (sweep t now) later key ≡ get t later key
unfolding get sweep
get-sweep t now later key d h =
    ap (live_count later) (lookup-retain (λ e. not (is_past now e)) key t d)
    ∙ live_keep now later (lookup key t) h
