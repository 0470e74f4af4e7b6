-- ===== src/Tests/Behaviors.antt =====
-- The theorems on internal/behavior/detector.go, applied to one client; floats are hundredths.
use custom_waf.Base.{
  ℕ, ◌≡◌, refl, true, false, List, [], ◌∷◌, ℤ, pos, Bytes, Bytes_eq, String_eq, ℕ_eq, bytes,
  bytes_beq, lookup, insert,
}
use custom_waf.Base.{◌-ℤ◌, ◌+ℤ◌}
use custom_waf.Engine.Types.{EvaluationResult}
use custom_waf.Behavior.Types.{BehaviorConfig, IpStatistics, Detector}
use custom_waf.Behavior.Checks.{count_recent}
use custom_waf.Behavior.Detector.{
  analyze, note_request, statistics_of, lift_ban, banned, count_categories,
}
use custom_waf.Behavior.Ban.{Visit, Banned, Refused, run}
use custom_waf.Behavior.Trip.{brute_force-ban, brute_force-monitored}
use custom_waf.Tests.Verdicts.{hundredths, get_request, alice, bob}

-- Two failures within the window ban for 100; one request a second is allowed.
abbrev pub config : BehaviorConfig ℤ
config = record {
  brute_force_threshold = pos 2;
  brute_force_window = pos 50;
  block_duration = pos 100;
  bot_detection_enabled = true;
  bot_score_threshold = pos 70;
  session_enabled = false;
  max_sessions_per_ip = pos 5;
  session_duration = pos 0;
  velocity_enabled = true;
  max_requests_per_second = pos 1;
  cleanup_interval = pos 0;
}

-- Alice has failed once.
abbrev one_failure : IpStatistics ℤ
one_failure = record {
  failed_attempts = 1;
  successful_attempts = 0;
  last_attempt = 5;
  first_attempt = 5;
  is_blocked = false;
  blocked_until = pos 0;
  total_requests = 1;
  unique_paths = [];
  unique_user_agents = [];
  request_timestamps = 5 ∷ [];
  suspicion_score = pos 0;
  is_suspicious = false;
  is_bot = false;
  detected_attacks = [];
}

abbrev detector : Detector ℤ
detector = record {
  ip_stats = (alice, one_failure) ∷ [];
  session_stats = [];
  path_stats = [];
  config = config;
}

abbrev refused_by_rules : EvaluationResult ℤ
refused_by_rules = record {
  total_score = pos 1200;
  matched_rules = [];
  decision = "BLOCK";
  bucket_scores = [];
  labels = [];
}

abbrev visit : ℕ → Bytes → Visit ℤ
visit now ip = record { at = now; req = get_request ip (bytes "/login"); ev = refused_by_rules }

abbrev later : List (Visit ℤ)
later = visit 20 bob ∷ visit 30 alice ∷ []

brute_force-ban_example :
    Refused alice later (run (analyze detector 10 (visit 10 alice).req refused_by_rules).0 later)
unfolding banned note_request statistics_of lift_ban count_categories lookup insert bytes_beq ◌-ℤ◌
    ◌+ℤ◌
brute_force-ban_example =
    brute_force-ban detector (visit 10 alice) later
      (refl, record { blocked = refl; inside = refl; enough = refl }) (refl, (refl, tt))

brute_force-monitored_example :
    let r = analyze detector 10 (visit 10 alice).req refused_by_rules in
    Banned r.0 alice (pos 10 +ℤ pos 100) × (r.1.recommend_action ≡ "MONITOR")
unfolding banned note_request statistics_of lift_ban count_categories lookup insert bytes_beq ◌-ℤ◌
    count_recent
brute_force-monitored_example =
    brute_force-monitored detector (visit 10 alice)
      (refl, record { blocked = refl; inside = refl; enough = refl }) refl refl
