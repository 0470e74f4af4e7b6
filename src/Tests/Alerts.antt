-- ===== src/Tests/Alerts.antt =====
-- The theorems on internal/notifier/notifier.go, applied to one webhook and one address.
use custom_waf.Base.{
  ℕ, ◌+◌, ◌*◌, ◌≤◌, ◌≡◌, refl, true, false, none, List, [], ◌∷◌, arith, ℤ, pos, Bytes, Bytes_eq,
  String_eq, ℕ_eq, bytes, bytes_beq, lookup, insert, length,
}
use custom_waf.Base.{any, int64, ◌*ℤ◌, retain}
use custom_waf.Notifier.Types.{Event, WebhookDestination, NotifierConfig, Notifier}
use custom_waf.Notifier.Send.{send, enqueue, sev_ok, kind_wanted, inc_throttled}
use custom_waf.Notifier.Work.{
  second, throttle_window, sweep_window, update_dest, update_first, record_dest_send, fan_out,
  fan_out_all, Channels, dispatch, dedup_key, is_throttled, throttle, suppressed, worker,
  dedup_sweep,
}
use custom_waf.Notifier.Config.{no_notifier_stats, new_notifier}
use custom_waf.Notifier.Run.{NotifierOp, raise, pick, tidy, run_ops}
use custom_waf.Notifier.Spacing.{alerts_spaced}
use custom_waf.Notifier.Account.{deliveries, queue_accounts}
use custom_waf.Notifier.Types.{DestStats}

abbrev fresh : DestStats
fresh = record {
  sent = 0;
  failed = 0;
  last_test_result = [];
  last_test_at = 0;
  last_error = [];
  last_sent_at = 0;
}

abbrev hook : WebhookDestination
hook = record {
  id = bytes "w1";
  name = bytes "pager";
  enabled = true;
  url = bytes "https://pager";
  method = [];
  headers = [];
  payload_template = [];
  stats = fresh;
}

abbrev alerts : NotifierConfig
alerts = record {
  enabled = true;
  min_severity = bytes "HIGH";
  throttle_seconds = pos 300;
  timeout = pos 5000000000;
  send_request_events = true;
  send_system_events = false;
  slack = [];
  email = [];
  webhook = hook ∷ [];
}

abbrev attack : Event ℤ
attack = record {
  kind = bytes "request";
  timestamp = 7;
  decision = bytes "BLOCK";
  severity = bytes "CRITICAL";
  client_ip = bytes "10.0.0.9";
  method = bytes "GET";
  host = bytes "shop";
  path = bytes "/";
  reason = [];
  rule_id = bytes "R1";
  score = pos 900;
  user_agent = [];
  request_id = [];
}

abbrev waiting : Notifier ℤ
waiting = record { cfg = alerts; queue = attack ∷ []; dedup = []; stats = no_notifier_stats }

abbrev channels : Channels ℤ
channels = record { send_slack = λ d e. none; send_email = λ d e. none; send_webhook = λ d e. none }

abbrev same : Bytes → Bytes
same s = s

abbrev later : List (ℕ × NotifierOp ℤ)
later = (2 * second, raise attack) ∷ (3 * second, tidy) ∷ []

alerts_spaced_example :
    let m = run_ops same (worker channels waiting second).1 later in
    worker channels m (5 * second)
    ≡ (suppressed attack, record m { queue = []; stats = inc_throttled m.stats })
unfolding worker throttle is_throttled throttle_window sweep_window int64 ◌*ℤ◌ lookup insert retain
    bytes_beq dedup_key dispatch fan_out_all fan_out record_dest_send update_dest update_first any
    dedup_sweep send enqueue kind_wanted sev_ok run_ops
alerts_spaced_example =
    alerts_spaced same 300 second (5 * second) channels channels waiting attack attack [] later refl
      (omega arith) (omega arith) tt refl (omega arith, omega arith, (omega arith, omega arith, tt))
      (omega arith) refl refl

abbrev busy : List (ℕ × NotifierOp ℤ)
busy = (second, raise attack) ∷ (2 * second, pick channels) ∷ later

queue_accounts_example :
    let n : Notifier ℤ = new_notifier alerts in
    let m = run_ops same n busy in
    (m.stats.queued ≡ m.stats.throttled + (deliveries same n busy + length m.queue))
    × (length m.queue ≤ 256)
queue_accounts_example = queue_accounts same alerts busy
