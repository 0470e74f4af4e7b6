-- ===== src/Notifier/Guard.antt =====
-- What the throttle of internal/notifier/notifier.go keeps while a key is within its window.
use custom_waf.Base.{
  ℕ, ◌+◌, ◌*◌, ◌≤◌, ◌<◌, ◌≡◌, refl, sym, ap, ◌∙◌, ◌⊎◌, inl, inr, Bool, true, false, not, some, List,
  [], ◌∷◌, arith, pos, Bytes, Bytes_eq, String_eq, ℕ_eq, bytes_beq_iff, ◌==◌, Bool-cases, lookup,
  insert,
}
use custom_waf.Base.{
  lookup-insert, lookup-retain, insert-Distinct, retain-Distinct, Distinct, int64_pos, pos-mul,
  ltb_ℤ, leb_ℤ, sub_ℕ,
}
use custom_waf.Notifier.Types.{Event, NotifierConfig, Notifier}
use custom_waf.Notifier.Send.{send, enqueue}
use custom_waf.Notifier.Work.{
  second, throttle_window, sweep_window, Channels, dispatch, dedup_key, is_throttled, throttle,
  Picked, idle, suppressed, dispatched, after_throttle, work_on, dedup_sweep,
}
use mathlib.Core.Path.{subst}
use custom_waf.Notifier.Steady.{dispatch_steady}

pub window_of :
    (c : NotifierConfig) (s : ℕ)
    → c.throttle_seconds ≡ pos s
    → 2 * s * second < 9223372036854775808
    → (throttle_window c ≡ pos (s * second)) × (sweep_window c ≡ pos (2 * s * second))
unfolding throttle_window sweep_window
window_of c s q b = (
  rw (q, pos-mul s second, int64_pos (s * second) (omega (arith, b))) refl,
  rw
      (
        q,
        pos-mul 2 s,
        int64_pos (2 * s) (omega (arith, b)),
        pos-mul (2 * s) second,
        int64_pos (2 * s * second) (omega (arith, b)),
      )
      refl,
)

lookup_self : (k : Bytes) (v : ℕ) (m : List (Bytes × ℕ)) → lookup k (insert k v m) ≡ some v
lookup_self k v m = ground (arith, lookup-insert k k v m, bytes_beq_iff k k)

module _ {F : Type 0} where
  -- The throttle is set to s seconds, and has let an event of this key through at or after t.
  pub record Guards (s t : ℕ) (key : Bytes) (n : Notifier F) : Type 0 where
    pub setting : n.cfg.throttle_seconds ≡ pos s
    pub distinct : Distinct n.dedup
    pub last : ℕ
    pub stands : lookup key n.dedup ≡ some last
    pub after : t ≤ last

  -- An entry that lies in the window suppresses.
  pub Guards-suppresses :
      (s t now : ℕ) (key : Bytes) (n : Notifier F) (e : Event F)
      → Guards s t key n
      → dedup_key e ≡ key
      → 0 < s
      → 2 * s * second < 9223372036854775808
      → now < t + s * second
      → is_throttled n now e ≡ true
  unfolding is_throttled
  Guards-suppresses s t now key n e g k p b l =
      rw ((window_of n.cfg s g.setting b).0, k, g.stands) (ground (arith, g.after, p, l))

  insert-Guards :
      (s t now : ℕ) (key k : Bytes) (n : Notifier F)
      → Guards s t key n
      → t ≤ now
      → Guards s t key (record n { dedup = insert k now n.dedup })
  insert-Guards s t now key k n g l = elim (Bool-cases (k == key)) [
    | inl y ↦ record {
      setting = g.setting;
      distinct = insert-Distinct k now n.dedup g.distinct;
      last = now;
      stands = rw (lookup-insert k key now n.dedup, y) refl;
      after = l;
    }
    | inr y ↦ record {
      setting = g.setting;
      distinct = insert-Distinct k now n.dedup g.distinct;
      last = g.last;
      stands = rw (lookup-insert k key now n.dedup, y) g.stands;
      after = g.after;
    }
  ]

  throttle-Guards :
      (s t now : ℕ) (key : Bytes) (n : Notifier F) (e : Event F)
      → Guards s t key n
      → t ≤ now
      → Guards s t key (throttle n now e).1
  unfolding throttle
  throttle-Guards s t now key n e g l = elim (Bool-cases (is_throttled n now e)) [
    | inl y ↦ rw y g
    | inr y ↦ elim (Bool-cases (leb_ℤ (throttle_window n.cfg) (pos 0))) [
      | inl z ↦ rw (y, z) g
      | inr z ↦ rw (y, z) (insert-Guards s t now key (dedup_key e) n g l)
    ]
  ]

  pub sweep-Guards :
      (s t now : ℕ) (key : Bytes) (n : Notifier F)
      → Guards s t key n
      → 2 * s * second < 9223372036854775808
      → now < t + s * second
      → Guards s t key (dedup_sweep n now)
  unfolding dedup_sweep
  sweep-Guards s t now key n g b l =
      let q =
        lookup-retain (λ v. not (ltb_ℤ (sweep_window n.cfg) (sub_ℕ now v))) key n.dedup
          g.distinct in
      record {
        setting = g.setting;
        distinct = retain-Distinct _ n.dedup g.distinct;
        last = g.last;
        stands = q ∙ rw (g.stands, (window_of n.cfg s g.setting b).1) (ground (arith, g.after, l));
        after = g.after;
      }

  -- Only the setting and the map count.
  pub same-Guards :
      (s t : ℕ) (key : Bytes) (n m : Notifier F)
      → m.cfg.throttle_seconds ≡ n.cfg.throttle_seconds
      → m.dedup ≡ n.dedup
      → Guards s t key n
      → Guards s t key m
  same-Guards s t key n m q d g = record {
    setting = q ∙ g.setting;
    distinct = subst Distinct (sym d) g.distinct;
    last = g.last;
    stands = ap (lookup key) d ∙ g.stands;
    after = g.after;
  }

  pub send_same :
      (upper : Bytes → Bytes) (n : Notifier F) (now : ℕ) (e : Event F)
      → let m = send upper n now e in
        (m.cfg.throttle_seconds ≡ n.cfg.throttle_seconds) × (m.dedup ≡ n.dedup)
  unfolding send enqueue
  send_same upper n now e = ground arith

  dispatch-Guards :
      (s t now : ℕ) (key : Bytes) (ch : Channels F) (n : Notifier F) (e : Event F)
      → Guards s t key n
      → Guards s t key (dispatch ch n now e)
  unfolding dispatch
  dispatch-Guards s t now key ch n e g =
      same-Guards s t key n (dispatch ch n now e) (dispatch_steady ch n now e).0 refl g

  after_throttle-Guards :
      (s t now : ℕ) (key : Bytes) (ch : Channels F) (e : Event F) (r : Bool × Notifier F)
      → Guards s t key r.1
      → Guards s t key (after_throttle ch now e r).1
  after_throttle-Guards s t now key ch e (true, n) g =
      same-Guards s t key n (after_throttle ch now e (true, n)).1 refl refl g
  after_throttle-Guards s t now key ch e (false, n) g = dispatch-Guards s t now key ch n e g

  pub work_on-Guards :
      (s t now : ℕ) (key : Bytes) (ch : Channels F) (n : Notifier F) (q : List (Event F))
      → Guards s t key n
      → t ≤ now
      → Guards s t key (work_on ch n now q).1
  work_on-Guards s t now key ch n [] g l = g
  work_on-Guards s t now key ch n (e ∷ rest) g l =
      let m = record n { queue = rest } in
      after_throttle-Guards s t now key ch e (throttle m now e)
        (throttle-Guards s t now key m e (same-Guards s t key n m refl refl g) l)

  abbrev picked_key : Picked F → Bytes
  picked_key idle = []
  picked_key (suppressed e) = []
  picked_key (dispatched e) = dedup_key e

  abbrev is_dispatched : Picked F → Bool
  is_dispatched idle = false
  is_dispatched (suppressed e) = false
  is_dispatched (dispatched e) = true

  -- With a window, the throttle suppresses or notes the time.
  throttle-cases :
      (s now : ℕ) (n : Notifier F) (e : Event F)
      → n.cfg.throttle_seconds ≡ pos s
      → 0 < s
      → 2 * s * second < 9223372036854775808
      → (throttle n now e ≡ (true, n))
        ⊎ (throttle n now e ≡ (false, record n { dedup = insert (dedup_key e) now n.dedup }))
  unfolding throttle
  throttle-cases s now n e c p b =
      let z : leb_ℤ (pos (s * second)) (pos 0) ≡ false = ground (arith, p) in
      elim (Bool-cases (is_throttled n now e)) [
        | inl y ↦ inl (rw y refl)
        | inr y ↦ inr (rw (y, (window_of n.cfg s c b).0, z) refl)
      ]

  -- What is let through leaves its time.
  pub dispatched-Guards :
      (s t : ℕ) (ch : Channels F) (n : Notifier F) (q : List (Event F)) (e : Event F)
      → n.cfg.throttle_seconds ≡ pos s
      → 0 < s
      → 2 * s * second < 9223372036854775808
      → Distinct n.dedup
      → (work_on ch n t q).0 ≡ dispatched e
      → Guards s t (dedup_key e) (work_on ch n t q).1
  dispatched-Guards s t ch n [] e c p b d h = absurd (cc)
  dispatched-Guards s t ch n (x ∷ rest) e c p b d h =
      let m = record n { queue = rest } in
      elim (throttle-cases s t m x c p b) [
        | inl y ↦ absurd (let k = rw y at h in cc)
        | inr y ↦
            let k = rw y at h in
            let f : Notifier F = record m { dedup = insert (dedup_key x) t n.dedup } in
            let g : Guards s t (dedup_key x) f = record {
              setting = c;
              distinct = insert-Distinct (dedup_key x) t n.dedup d;
              last = t;
              stands = lookup_self (dedup_key x) t n.dedup;
              after = omega arith;
            } in
            rw y (
              subst (λ key. Guards s t key (dispatch ch f t x)) (ap picked_key k)
                (dispatch-Guards s t t (dedup_key x) ch f x g))
      ]
