-- ===== src/Notifier/Config.antt =====
-- `New`, `SetConfig`, `preserveStats` and the tests of a destination in
-- internal/notifier/notifier.go. The identifiers that are made up for destinations without one are
-- an argument (`newDestID`).
use custom_waf.Base.{
  ℕ, suc, Bool, true, false, not, ◌||◌, Option, none, some, List, [], ◌∷◌, ◌++◌, map, ℤ, pos,
  negsuc, Bytes, Bytes_eq, String_eq, ℕ_eq, bytes, bytes_beq, if◌then◌else◌, lookup, insert,
}
use custom_waf.Base.{leb_ℤ}
use custom_waf.Notifier.Types.{
  Event, DestStats, SlackDestination, EmailDestination, WebhookDestination, NotifierConfig,
  NotifierStats, Notifier,
}
use custom_waf.Notifier.Send.{inc_failed}
use custom_waf.Notifier.Work.{
  record_dest_test, inc_slack_sent, inc_email_sent, inc_webhook_ok, has_recipient, Channels,
}

abbrev pub negative : ℤ → Bool
negative (pos n) = false
negative (negsuc n) = true

unfoldable pub with_defaults : NotifierConfig → NotifierConfig
with_defaults c = record c {
  min_severity = if bytes_beq c.min_severity [] then bytes "HIGH" else c.min_severity;
  throttle_seconds = if negative c.throttle_seconds then pos 300 else c.throttle_seconds;
  timeout = if leb_ℤ c.timeout (pos 0) then pos 5000000000 else c.timeout;
  send_request_events =
      c.send_request_events || not (c.send_request_events || c.send_system_events);
}

abbrev pub no_notifier_stats : NotifierStats
no_notifier_stats = record {
  queued = 0;
  sent = 0;
  failed = 0;
  throttled = 0;
  below_sev = 0;
  slack_sent = 0;
  email_sent = 0;
  webhook_ok = 0;
  last_err = [];
  last_sent_at = 0;
}

unfoldable pub new_notifier : {F : Type 0} → NotifierConfig → Notifier F
new_notifier c = record { cfg = with_defaults c; queue = []; dedup = []; stats = no_notifier_stats }

-- The counters of the earlier destinations; a later one of the same identifier wins.
unfoldable pub stash :
    {D : Type 0}
    → (D → Bytes)
    → (D → DestStats)
    → List D
    → List (Bytes × DestStats)
    → List (Bytes × DestStats)
stash id_of stats_of [] m = m
stash id_of stats_of (d ∷ ds) m = stash id_of stats_of ds (insert (id_of d) (stats_of d) m)

abbrev pub or_stats : DestStats → Option DestStats → DestStats
or_stats s none = s
or_stats s (some t) = t

unfoldable pub preserve_stats : NotifierConfig → NotifierConfig → NotifierConfig
preserve_stats old fresh =
    let m =
      stash (λ d. d.id) (λ d. d.stats) old.webhook
        (stash (λ d. d.id) (λ d. d.stats) old.email
          (stash (λ d. d.id) (λ d. d.stats) old.slack [])) in
    record fresh {
      slack =
          map {A = SlackDestination} (λ d. record d { stats = or_stats d.stats (lookup d.id m) })
            fresh.slack;
      email =
          map {A = EmailDestination} (λ d. record d { stats = or_stats d.stats (lookup d.id m) })
            fresh.email;
      webhook =
          map {A = WebhookDestination} (λ d. record d { stats = or_stats d.stats (lookup d.id m) })
            fresh.webhook;
    }

abbrev pub or_made : Bytes → Bytes → Bytes
or_made made i = if bytes_beq i [] then made else i

-- The n-th identifier that is made up serves the n-th destination of its kind.
unfoldable pub assign_ids :
    {D : Type 0} → (D → Bytes) → (Bytes → D → D) → (ℕ → Bytes) → ℕ → List D → List D
assign_ids id_of put_id made n [] = []
assign_ids id_of put_id made n (d ∷ ds) =
    put_id (or_made (made n) (id_of d)) d ∷ assign_ids id_of put_id made (suc n) ds

unfoldable pub with_ids : (Bytes → ℕ → Bytes) → NotifierConfig → NotifierConfig
with_ids made c = record c {
  slack = assign_ids (λ d. d.id) (λ i d. record d { id = i }) (made (bytes "slack")) 0 c.slack;
  email = assign_ids (λ d. d.id) (λ i d. record d { id = i }) (made (bytes "email")) 0 c.email;
  webhook =
      assign_ids (λ d. d.id) (λ i d. record d { id = i }) (made (bytes "webhook")) 0 c.webhook;
}

module _ {F : Type 0} where
  unfoldable pub set_config : (Bytes → ℕ → Bytes) → Notifier F → NotifierConfig → Notifier F
  set_config made n c = record n { cfg = preserve_stats n.cfg (with_ids made (with_defaults c)) }

  abbrev pub after_test :
      (NotifierStats → NotifierStats) → Notifier F → ℕ → Bytes → Option Bytes → Notifier F × Bytes
  after_test count n now i none = (
    record n { cfg = record_dest_test now i (bytes "OK") n.cfg; stats = count n.stats },
    bytes "OK",
  )
  after_test count n now i (some msg) = (
    record n {
      cfg = record_dest_test now i (bytes "FAIL: " ++ msg) n.cfg;
      stats = inc_failed msg n.stats;
    },
    msg,
  )

  -- `e` is the event of `syntheticTestEvent`.
  unfoldable pub test_slack :
      Channels F → Notifier F → ℕ → Event F → SlackDestination → Notifier F × Bytes
  test_slack ch n now e d =
      if bytes_beq d.webhook_url []
      then (n, bytes "Slack webhook URL is empty")
      else after_test inc_slack_sent n now d.id (ch.send_slack d e)

  unfoldable pub test_email :
      Channels F → Notifier F → ℕ → Event F → EmailDestination → Notifier F × Bytes
  test_email ch n now e d =
      if bytes_beq d.host [] || not (has_recipient d.recipients)
      then (n, bytes "Email destination needs at least a host and one recipient")
      else after_test inc_email_sent n now d.id (ch.send_email d e)

  unfoldable pub test_webhook :
      Channels F → Notifier F → ℕ → Event F → WebhookDestination → Notifier F × Bytes
  test_webhook ch n now e d =
      if bytes_beq d.url []
      then (n, bytes "Webhook URL is empty")
      else after_test inc_webhook_ok n now d.id (ch.send_webhook d e)
