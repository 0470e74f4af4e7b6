-- ===== src/Notifier/Account.antt =====
-- The queue of internal/notifier/notifier.go and its counters.
use custom_waf.Base.{
  ℕ, suc, ◌+◌, ◌≤◌, ◌≡◌, refl, sym, ap, ◌∙◌, inl, inr, Bool, true, false, not, ◌&&◌, List, [], ◌∷◌,
  arith, Bytes, Bytes_eq, String_eq, ℕ_eq, if◌then◌else◌, ltb, Bool-cases, length,
}
use custom_waf.Base.{length-append}
use mathlib.Core.Path.{subst}
use custom_waf.Notifier.Types.{Event, NotifierConfig, Notifier}
use custom_waf.Notifier.Send.{kind_wanted, sev_ok, inc_below_sev, send, enqueue, stamp, queue_size}
use custom_waf.Notifier.Work.{
  Channels, dispatch, throttle, Picked, idle, suppressed, dispatched, after_throttle, work_on,
  worker, dedup_sweep,
}
use custom_waf.Notifier.Config.{new_notifier}
use custom_waf.Notifier.Run.{NotifierOp, raise, pick, tidy, run_ops, apply_op}
use custom_waf.Notifier.Steady.{dispatch_steady}

module _ {F : Type 0} where
  abbrev pub delivered_by : Picked F → ℕ
  delivered_by idle = 0
  delivered_by (suppressed e) = 0
  delivered_by (dispatched e) = 1

  abbrev pub delivered_in : Notifier F → ℕ → NotifierOp F → ℕ
  delivered_in n now (raise e) = 0
  delivered_in n now (pick ch) = delivered_by (worker ch n now).0
  delivered_in n now tidy = 0

  -- How many events the worker hands to the channels in a run.
  unfoldable pub deliveries : (Bytes → Bytes) → Notifier F → List (ℕ × NotifierOp F) → ℕ
  deliveries upper n [] = 0
  deliveries upper n ((now, o) ∷ os) =
      delivered_in n now o + deliveries upper (apply_op upper n now o) os

  -- With d events delivered, what was queued is suppressed, delivered or waits.
  record Balanced (d : ℕ) (n : Notifier F) : Type 0 where
    count : n.stats.queued ≡ n.stats.throttled + (d + length n.queue)
    bounded : length n.queue ≤ queue_size

  if-Balanced :
      (d : ℕ) (b : Bool) (n m : Notifier F)
      → Balanced d n
      → Balanced d m
      → Balanced d (if b then n else m)
  if-Balanced d true n m x y = x
  if-Balanced d false n m x y = y

  same-Balanced :
      (d : ℕ) (n m : Notifier F)
      → m.stats ≡ n.stats
      → m.queue ≡ n.queue
      → Balanced d n
      → Balanced d m
  same-Balanced d n m s q b = record {
    count = ap (λ t. t.queued) s ∙ b.count ∙ sym (λ i. (s i).throttled + (d + length (q i)));
    bounded = omega (arith, ap length q, b.bounded);
  }

  equal-Balanced : (c d : ℕ) (n : Notifier F) → c ≡ d → Balanced c n → Balanced d n
  equal-Balanced c d n q b = record { count = omega (arith, q, b.count); bounded = b.bounded }

  enqueue-Balanced :
      (d : ℕ) (n : Notifier F) (e : Event F) → Balanced d n → Balanced d (enqueue n e)
  unfolding enqueue
  enqueue-Balanced d n e b =
      let l = length-append n.queue (e ∷ []) in
      elim (Bool-cases (ltb (length n.queue) queue_size)) [
        | inl y ↦
            rw y (record { count = omega (arith, l, b.count); bounded = ground (arith, l, y) })
        | inr y ↦ rw y (record { count = b.count; bounded = b.bounded })
      ]

  send-Balanced :
      (upper : Bytes → Bytes) (d : ℕ) (n : Notifier F) (now : ℕ) (e : Event F)
      → Balanced d n
      → Balanced d (send upper n now e)
  unfolding send
  send-Balanced upper d n now e b =
      let low : Notifier F = record n { stats = inc_below_sev n.stats } in
      let taken = enqueue n (stamp now e) in
      let ok = sev_ok upper e.severity n.cfg.min_severity in
      if-Balanced d (not (n.cfg.enabled && kind_wanted n.cfg e.kind)) n (if ok then taken else low)
        b
        (if-Balanced d ok taken low (enqueue-Balanced d n (stamp now e) b)
          (record { count = b.count; bounded = b.bounded }))

  throttle_same :
      (n : Notifier F) (now : ℕ) (e : Event F)
      → let m = (throttle n now e).1 in (m.stats ≡ n.stats) × (m.queue ≡ n.queue)
  unfolding throttle
  throttle_same n now e = ground arith

  after_throttle-Balanced :
      (d now : ℕ) (ch : Channels F) (e : Event F) (r : Bool × Notifier F)
      → r.1.stats.queued ≡ r.1.stats.throttled + (d + suc (length r.1.queue))
      → length r.1.queue ≤ queue_size
      → let o = after_throttle ch now e r in Balanced (d + delivered_by o.0) o.1
  unfolding dispatch
  after_throttle-Balanced d now ch e (true, n) q b = record {
    count = omega (arith, q);
    bounded = b;
  }
  after_throttle-Balanced d now ch e (false, n) q b =
      let s = dispatch_steady ch n now e in
      record { count = omega (arith, q, s.1, s.2); bounded = b }

  work_on-Balanced :
      (d now : ℕ) (ch : Channels F) (n : Notifier F) (q : List (Event F))
      → n.queue ≡ q
      → Balanced d n
      → let o = work_on ch n now q in Balanced (d + delivered_by o.0) o.1
  work_on-Balanced d now ch n [] h b = record {
    count = omega (arith, b.count);
    bounded = b.bounded;
  }
  work_on-Balanced d now ch n (e ∷ rest) h b =
      let m : Notifier F = record n { queue = rest } in
      let s = throttle_same m now e in
      let c : n.stats.queued ≡ n.stats.throttled + (d + suc (length rest)) =
        b.count ∙ ap (λ l. n.stats.throttled + (d + length l)) h in
      let l : suc (length rest) ≤ queue_size = subst (λ l. length l ≤ queue_size) h b.bounded in
      after_throttle-Balanced d now ch e (throttle m now e)
        (ap (λ t. t.queued) s.0 ∙ c ∙ sym (λ i. (s.0 i).throttled + (d + suc (length (s.1 i)))))
        (omega (arith, l, ap length s.1))

  run_ops-Balanced :
      (upper : Bytes → Bytes) (os : List (ℕ × NotifierOp F)) (d : ℕ) (n : Notifier F)
      → Balanced d n
      → Balanced (d + deliveries upper n os) (run_ops upper n os)
  unfolding run_ops deliveries worker dedup_sweep
  run_ops-Balanced upper [] d n b = equal-Balanced d (d + 0) n (omega arith) b
  run_ops-Balanced upper ((now, raise e) ∷ os) d n b =
      let m = send upper n now e in
      equal-Balanced (d + deliveries upper m os) _ (run_ops upper m os) (omega arith)
        (run_ops-Balanced upper os d m (send-Balanced upper d n now e b))
  run_ops-Balanced upper ((now, pick ch) ∷ os) d n b =
      let r = worker ch n now in
      let c = d + delivered_by r.0 in
      equal-Balanced (c + deliveries upper r.1 os) _ (run_ops upper r.1 os) (omega arith)
        (run_ops-Balanced upper os c r.1 (work_on-Balanced d now ch n n.queue refl b))
  run_ops-Balanced upper ((now, tidy) ∷ os) d n b =
      let m = dedup_sweep n now in
      equal-Balanced (d + deliveries upper m os) _ (run_ops upper m os) (omega arith)
        (run_ops-Balanced upper os d m (same-Balanced d n m refl refl b))

  -- In every run from a new notifier each event that was queued was suppressed by the throttle,
  -- was handed to the channels or still waits, and no more than 256 events wait.
  pub queue_accounts :
      (upper : Bytes → Bytes) (c : NotifierConfig) (os : List (ℕ × NotifierOp F))
      → let n : Notifier F = new_notifier c in
        let m = run_ops upper n os in
        (m.stats.queued ≡ m.stats.throttled + (deliveries upper n os + length m.queue))
        × (length m.queue ≤ 256)
  unfolding new_notifier
  queue_accounts upper c os =
      let b =
        run_ops-Balanced upper os 0 (new_notifier c)
          (record { count = refl; bounded = omega arith }) in
      (omega (arith, b.count), b.bounded)
