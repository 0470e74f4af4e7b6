-- ===== src/Notifier/Steady.antt =====
-- What the delivery of internal/notifier/notifier.go leaves alone.
use custom_waf.Base.{
  ℕ, ◌≡◌, refl, ◌∙◌, inl, inr, Bool, true, false, Option, none, some, List, [], ◌∷◌, Bytes,
  Bytes_eq, String_eq, ℕ_eq, if◌then◌else◌, Bool-cases,
}
use custom_waf.Notifier.Types.{Event, NotifierStats, Notifier}
use custom_waf.Notifier.Work.{
  update_dest, record_dest_send, Progress, after_send, fan_out, fan_out_all, Channels, dispatch,
  inc_slack_sent, inc_email_sent, inc_webhook_ok, mark_sent,
}

-- The window of the throttle and the counts of the queue are the same.
record Steady (p q : Progress) : Type 0 where
  seconds : q.cfg.throttle_seconds ≡ p.cfg.throttle_seconds
  queued : q.stats.queued ≡ p.stats.queued
  throttled : q.stats.throttled ≡ p.stats.throttled

join-Steady : (p q r : Progress) → Steady p q → Steady q r → Steady p r
join-Steady p q r a b = record {
  seconds = b.seconds ∙ a.seconds;
  queued = b.queued ∙ a.queued;
  throttled = b.throttled ∙ a.throttled;
}

choose-Steady : (b : Bool) (p q : Progress) → Steady p q → Steady p (if b then q else p)
choose-Steady true p q s = s
choose-Steady false p q s = record { seconds = refl; queued = refl; throttled = refl }

-- The counter of a channel is none of the two.
abbrev IsApart : (NotifierStats → NotifierStats) → Type 0
IsApart count =
    (s : NotifierStats) → ((count s).queued ≡ s.queued) × ((count s).throttled ≡ s.throttled)

after_send-Steady :
    (now : ℕ) (i : Bytes) (count : NotifierStats → NotifierStats) (o : Option Bytes) (p : Progress)
    → IsApart count
    → Steady p (after_send now i count o p)
unfolding record_dest_send update_dest
after_send-Steady now i count none p a = record {
  seconds = refl;
  queued = (a p.stats).0;
  throttled = (a p.stats).1;
}
after_send-Steady now i count (some msg) p a = record {
  seconds = refl;
  queued = refl;
  throttled = refl;
}

fan_out-Steady :
    {D : Type 0} (ready : D → Bool) (id_of : D → Bytes) (deliver : D → Option Bytes)
    (count : NotifierStats → NotifierStats) (now : ℕ) (ds : List D) (p : Progress)
    → IsApart count
    → Steady p (fan_out ready id_of deliver count now ds p)
unfolding fan_out
fan_out-Steady ready id_of deliver count now [] p a = record {
  seconds = refl;
  queued = refl;
  throttled = refl;
}
fan_out-Steady ready id_of deliver count now (d ∷ ds) p a =
    let q = after_send now (id_of d) count (deliver d) p in
    let next = if ready d then q else p in
    join-Steady p next (fan_out ready id_of deliver count now ds next)
      (choose-Steady (ready d) p q (after_send-Steady now (id_of d) count (deliver d) p a))
      (fan_out-Steady ready id_of deliver count now ds next a)

marked :
    (p : Progress) (now : ℕ)
    → let t = if p.delivered then mark_sent now p.stats else p.stats in
      (t.queued ≡ p.stats.queued) × (t.throttled ≡ p.stats.throttled)
marked p now = elim (Bool-cases p.delivered) [
  | inl y ↦ rw y (refl, refl)
  | inr y ↦ rw y (refl, refl)
]

module _ {F : Type 0} where
  fan_out_all-Steady :
      (ch : Channels F) (now : ℕ) (n : Notifier F) (e : Event F) (p : Progress)
      → Steady p (fan_out_all ch now n.cfg e p)
  unfolding fan_out_all
  fan_out_all-Steady ch now n e p =
      join-Steady _ _ _ (fan_out-Steady _ _ _ inc_slack_sent now n.cfg.slack p (λ s. (refl, refl)))
        (join-Steady _ _ _
          (fan_out-Steady _ _ _ inc_email_sent now n.cfg.email _ (λ s. (refl, refl)))
          (fan_out-Steady _ _ _ inc_webhook_ok now n.cfg.webhook _ (λ s. (refl, refl))))

  -- A delivery changes neither the window nor the counts of the queue.
  pub dispatch_steady :
      (ch : Channels F) (n : Notifier F) (now : ℕ) (e : Event F)
      → let m = dispatch ch n now e in
        (m.cfg.throttle_seconds ≡ n.cfg.throttle_seconds)
        × (m.stats.queued ≡ n.stats.queued)
        × (m.stats.throttled ≡ n.stats.throttled)
  unfolding dispatch
  dispatch_steady ch n now e =
      let start : Progress = record { cfg = n.cfg; stats = n.stats; delivered = false } in
      let s = fan_out_all-Steady ch now n e start in
      let m = marked (fan_out_all ch now n.cfg e start) now in
      (s.seconds, m.0 ∙ s.queued, m.1 ∙ s.throttled)
