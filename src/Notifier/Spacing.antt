-- ===== src/Notifier/Spacing.antt =====
-- The throttle of internal/notifier/notifier.go over a run of the notifier.
use custom_waf.Base.{
  ℕ, ◌+◌, ◌*◌, ◌<◌, ◌≡◌, refl, List, [], ◌∷◌, arith, pos, Bytes, Bytes_eq, String_eq, ℕ_eq,
}
use custom_waf.Base.{Distinct}
use custom_waf.Notifier.Types.{Event, Notifier}
use custom_waf.Notifier.Send.{send}
use custom_waf.Notifier.Work.{
  second, Channels, dedup_key, throttle, suppressed, dispatched, worker, dedup_sweep,
}
use custom_waf.Notifier.Send.{inc_throttled}
use custom_waf.Notifier.Run.{NotifierOp, raise, pick, tidy, run_ops, Between}
use custom_waf.Notifier.Guard.{
  Guards, Guards-suppresses, sweep-Guards, same-Guards, send_same, work_on-Guards,
  dispatched-Guards,
}

module _ {F : Type 0} where
  run_ops-Guards :
      (upper : Bytes → Bytes) (s t now : ℕ) (key : Bytes) (os : List (ℕ × NotifierOp F))
      (n : Notifier F)
      → Guards s t key n
      → 2 * s * second < 9223372036854775808
      → now < t + s * second
      → Between t now os
      → Guards s t key (run_ops upper n os)
  unfolding run_ops worker
  run_ops-Guards upper s t now key [] n g b l w = g
  run_ops-Guards upper s t now key ((at, raise e) ∷ os) n g b l w =
      let q = send_same upper n at e in
      run_ops-Guards upper s t now key os (send upper n at e)
        (same-Guards s t key n (send upper n at e) q.0 q.1 g) b l w.2
  run_ops-Guards upper s t now key ((at, pick ch) ∷ os) n g b l w =
      run_ops-Guards upper s t now key os (worker ch n at).1
        (work_on-Guards s t at key ch n n.queue g w.0) b l w.2
  run_ops-Guards upper s t now key ((at, tidy) ∷ os) n g b l w =
      run_ops-Guards upper s t now key os (dedup_sweep n at)
        (sweep-Guards s t at key n g b (omega (arith, w.1, l))) b l w.2

  -- With a throttle of s seconds, s positive and small enough for 2 s to fit in nanoseconds: once
  -- the worker has handed an event to the channels, then, after every run of events raised, events
  -- worked on and sweeps up to now, an event of the same throttle key (address, rule, decision)
  -- that the worker takes up less than s seconds after it is suppressed: it leaves the queue, is
  -- counted, and nothing else changes. The keys of the map are distinct.
  pub alerts_spaced :
      (upper : Bytes → Bytes) (s t now : ℕ) (ch later : Channels F) (n : Notifier F) (e x : Event F)
      (rest : List (Event F)) (os : List (ℕ × NotifierOp F))
      → n.cfg.throttle_seconds ≡ pos s
      → 0 < s
      → 2 * s * second < 9223372036854775808
      → Distinct n.dedup
      → (worker ch n t).0 ≡ dispatched e
      → Between t now os
      → now < t + s * second
      → dedup_key x ≡ dedup_key e
      → let m = run_ops upper (worker ch n t).1 os in
        m.queue ≡ x ∷ rest
        → worker later m now
          ≡ (suppressed x, record m { queue = rest; stats = inc_throttled m.stats })
  unfolding worker throttle
  alerts_spaced upper s t now ch later n e x rest os c p b d h w l k q =
      let m = run_ops upper (worker ch n t).1 os in
      let g = dispatched-Guards s t ch n n.queue e c p b d h in
      let g2 = run_ops-Guards upper s t now (dedup_key e) os (worker ch n t).1 g b l w in
      let f = record m { queue = rest } in
      let y =
        Guards-suppresses s t now (dedup_key e) f x (same-Guards s t (dedup_key e) m f refl refl g2)
          k p b l in
      rw (q, y) refl
