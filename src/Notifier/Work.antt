-- ===== src/Notifier/Work.antt =====
-- The worker of internal/notifier/notifier.go: throttle, delivery and the sweep of the throttle.
-- The channels themselves (HTTP and SMTP) are a parameter that answers with an error or without.
use custom_waf.Base.{
  ℕ, suc, Bool, true, false, not, ◌&&◌, ◌||◌, Option, none, some, List, [], ◌∷◌, ◌++◌, ℤ, pos,
  Bytes, Bytes_eq, bytes, bytes_beq, if◌then◌else◌, lookup, insert, retain, int64, ◌*ℤ◌, ltb_ℤ,
  leb_ℤ, sub_ℕ, any,
}
use custom_waf.Notifier.Types.{
  Event, DestStats, SlackDestination, EmailDestination, WebhookDestination, NotifierConfig,
  NotifierStats, Notifier,
}
use custom_waf.Notifier.Send.{inc_failed, inc_throttled}

abbrev pub second : ℕ
second = 1000000000

-- `time.Duration(n.cfg.ThrottleSeconds) * time.Second`
unfoldable pub throttle_window : NotifierConfig → ℤ
throttle_window c = int64 (c.throttle_seconds *ℤ pos second)

unfoldable pub sweep_window : NotifierConfig → ℤ
sweep_window c = int64 (int64 (pos 2 *ℤ c.throttle_seconds) *ℤ pos second)

-- The loop over one kind of destination up to the one that is meant.
unfoldable pub update_first : {D : Type 0} → (D → Bool) → (D → D) → List D → List D
update_first p f [] = []
update_first p f (d ∷ ds) = let rest = update_first p f ds in if p d then f d ∷ ds else d ∷ rest

unfoldable pub update_dest : Bytes → (DestStats → DestStats) → NotifierConfig → NotifierConfig
update_dest i f c =
    let in_slack = any (λ (d : SlackDestination). bytes_beq d.id i) c.slack in
    let in_email = any (λ (d : EmailDestination). bytes_beq d.id i) c.email in
    let skip = bytes_beq i [] in
    record c {
      slack =
          if skip
          then c.slack
          else update_first (λ d. bytes_beq d.id i) (λ d. record d { stats = f d.stats }) c.slack;
      email =
          if skip || in_slack
          then c.email
          else update_first (λ d. bytes_beq d.id i) (λ d. record d { stats = f d.stats }) c.email;
      webhook =
          if skip || (in_slack || in_email)
          then c.webhook
          else update_first (λ d. bytes_beq d.id i) (λ d. record d { stats = f d.stats }) c.webhook;
    }

abbrev pub sent_or_failed : ℕ → Option Bytes → DestStats → DestStats
sent_or_failed now none s = record s { sent = suc s.sent; last_sent_at = now; last_error = [] }
sent_or_failed now (some msg) s = record s { failed = suc s.failed; last_error = msg }

-- No error is `none`.
unfoldable pub record_dest_send : ℕ → Bytes → Option Bytes → NotifierConfig → NotifierConfig
record_dest_send now i err c = update_dest i (sent_or_failed now err) c

unfoldable pub record_dest_test : ℕ → Bytes → Bytes → NotifierConfig → NotifierConfig
record_dest_test now i result c =
    update_dest i (λ s. record s { last_test_result = result; last_test_at = now }) c

-- Whether an event was delivered, with the destinations and the counters so far.
pub record Progress : Type 0 where
  pub cfg : NotifierConfig
  pub stats : NotifierStats
  pub delivered : Bool

abbrev pub inc_slack_sent : NotifierStats → NotifierStats
inc_slack_sent s = record s { slack_sent = suc s.slack_sent }

abbrev pub inc_email_sent : NotifierStats → NotifierStats
inc_email_sent s = record s { email_sent = suc s.email_sent }

abbrev pub inc_webhook_ok : NotifierStats → NotifierStats
inc_webhook_ok s = record s { webhook_ok = suc s.webhook_ok }

abbrev pub mark_sent : ℕ → NotifierStats → NotifierStats
mark_sent now s = record s { sent = suc s.sent; last_sent_at = now }

abbrev pub after_send :
    ℕ → Bytes → (NotifierStats → NotifierStats) → Option Bytes → Progress → Progress
after_send now i count none p = record {
  cfg = record_dest_send now i none p.cfg;
  stats = count p.stats;
  delivered = true;
}
after_send now i count (some msg) p = record {
  cfg = record_dest_send now i (some msg) p.cfg;
  stats = inc_failed msg p.stats;
  delivered = p.delivered;
}

-- The loop over the destinations of one kind.
unfoldable pub fan_out :
    {D : Type 0}
    → (D → Bool)
    → (D → Bytes)
    → (D → Option Bytes)
    → (NotifierStats → NotifierStats)
    → ℕ
    → List D
    → Progress
    → Progress
fan_out ready id_of deliver count now [] p = p
fan_out ready id_of deliver count now (d ∷ ds) p =
    fan_out ready id_of deliver count now ds
      (if ready d then after_send now (id_of d) count (deliver d) p else p)

abbrev pub ready_slack : SlackDestination → Bool
ready_slack d = d.enabled && not (bytes_beq d.webhook_url [])

abbrev pub has_recipient : List Bytes → Bool
has_recipient [] = false
has_recipient (r ∷ rs) = true

abbrev pub ready_email : EmailDestination → Bool
ready_email d = d.enabled && (not (bytes_beq d.host []) && has_recipient d.recipients)

abbrev pub ready_webhook : WebhookDestination → Bool
ready_webhook d = d.enabled && not (bytes_beq d.url [])

-- `sendSlack`, `sendEmail` and `sendWebhook`.
pub record Channels (F : Type 0) : Type 0 where
  pub send_slack : SlackDestination → Event F → Option Bytes
  pub send_email : EmailDestination → Event F → Option Bytes
  pub send_webhook : WebhookDestination → Event F → Option Bytes

-- What became of the event that the worker took from the queue.
pub data Picked (F : Type 0) : Type 0 where
  idle : Picked F
  suppressed : Event F → Picked F
  dispatched : Event F → Picked F

-- The entry of the key lies within the window.
abbrev pub recent : ℤ → ℕ → Option ℕ → Bool
recent window now none = false
recent window now (some last) = ltb_ℤ (sub_ℕ now last) window

module _ {F : Type 0} where
  unfoldable pub fan_out_all : Channels F → ℕ → NotifierConfig → Event F → Progress → Progress
  fan_out_all ch now c e p =
      let slack =
        fan_out ready_slack (λ d. d.id) (λ d. ch.send_slack d e) inc_slack_sent now c.slack p in
      let email =
        fan_out ready_email (λ d. d.id) (λ d. ch.send_email d e) inc_email_sent now c.email slack in
      fan_out ready_webhook (λ d. d.id) (λ d. ch.send_webhook d e) inc_webhook_ok now c.webhook
        email

  unfoldable pub dispatch : Channels F → Notifier F → ℕ → Event F → Notifier F
  dispatch ch n now e =
      let p =
        fan_out_all ch now n.cfg e (record { cfg = n.cfg; stats = n.stats; delivered = false }) in
      record n { cfg = p.cfg; stats = if p.delivered then mark_sent now p.stats else p.stats }

  unfoldable pub dedup_key : Event F → Bytes
  dedup_key e = e.client_ip ++ (bytes "|" ++ (e.rule_id ++ (bytes "|" ++ e.decision)))

  unfoldable pub is_throttled : Notifier F → ℕ → Event F → Bool
  is_throttled n now e =
      let window = throttle_window n.cfg in
      not (leb_ℤ window (pos 0)) && recent window now (lookup (dedup_key e) n.dedup)

  unfoldable pub throttle : Notifier F → ℕ → Event F → Bool × Notifier F
  throttle n now e =
      if is_throttled n now e
      then (true, n)
      else if leb_ℤ (throttle_window n.cfg) (pos 0)
      then (false, n)
      else (false, record n { dedup = insert (dedup_key e) now n.dedup })

  abbrev pub after_throttle : Channels F → ℕ → Event F → Bool × Notifier F → Picked F × Notifier F
  after_throttle ch now e (true, n) = (suppressed e, record n { stats = inc_throttled n.stats })
  after_throttle ch now e (false, n) = (dispatched e, dispatch ch n now e)

  abbrev pub work_on : Channels F → Notifier F → ℕ → List (Event F) → Picked F × Notifier F
  work_on ch n now [] = (idle, n)
  work_on ch n now (e ∷ rest) = after_throttle ch now e (throttle (record n { queue = rest }) now e)

  -- One round of the loop of `worker`.
  unfoldable pub worker : Channels F → Notifier F → ℕ → Picked F × Notifier F
  worker ch n now = work_on ch n now n.queue

  -- One round of the loop of `dedupSweeper`.
  unfoldable pub dedup_sweep : Notifier F → ℕ → Notifier F
  dedup_sweep n now =
      let window = sweep_window n.cfg in
      record n { dedup = retain (λ v. not (ltb_ℤ window (sub_ℕ now v))) n.dedup }
