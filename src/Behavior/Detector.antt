-- ===== src/Behavior/Detector.antt =====
-- The operations of internal/behavior/detector.go. A client's statistics are shared through a
-- pointer: they are written back after their last change.
use custom_waf.Base.{
  ℕ, suc, ◌*◌, Bool, true, false, ◌&&◌, ◌||◌, Option, none, some, List, [], ◌∷◌, ◌++◌, pos, Bytes,
  Bytes_eq, String_eq, ℕ_eq, bytes, if◌then◌else◌, ◌==◌, lookup, insert, Float64,
}
use custom_waf.Base.{erase, retain, ltb_ℤ, leb_ℤ, ◌-ℤ◌, filter}
use custom_waf.RateLimit.Types.{minute}
use custom_waf.Engine.Types.{ParsedRequest, EvaluationResult, MatchResult}
use custom_waf.Decision.Types.{BehaviorResult}
use custom_waf.Engine.Evaluate.{count_up}
use custom_waf.Behavior.Types.{BehaviorConfig, IpStatistics, PathStatistics, Detector}
use custom_waf.Behavior.Checks.{
  check_brute_force, check_bot_behavior, check_velocity, check_attack_patterns,
}

abbrev pub or_new_path : Bytes → Option PathStatistics → PathStatistics
or_new_path path (some s) = s
or_new_path path none = record {
  path = path;
  total_access = 0;
  unique_ips = [];
  failed_attempts = 0;
  last_access = 0;
}

-- `updatePathStats`
unfoldable pub update_path_stats :
    List (Bytes × PathStatistics) → ℕ → Bytes → Bytes → Bool → List (Bytes × PathStatistics)
update_path_stats m now path ip was_blocked =
    let stats = or_new_path path (lookup path m) in
    insert path
      (record stats {
        total_access = suc stats.total_access;
        unique_ips = insert ip true stats.unique_ips;
        last_access = now;
        failed_attempts = if was_blocked then suc stats.failed_attempts else stats.failed_attempts;
      })
      m

module _ {F : Type 0} where
  -- `stats.detectedAttacks[match.Category]++` for each match.
  unfoldable pub count_categories : List (MatchResult F) → List (Bytes × ℕ) → List (Bytes × ℕ)
  count_categories [] m = m
  count_categories (r ∷ rs) m = count_categories rs (count_up r.category m)

  unfoldable pub set_config : Detector F → BehaviorConfig F → Detector F
  set_config d config = record d { config = config }

  abbrev pub store : Detector F → Bytes → IpStatistics F → Detector F
  store d ip stats = record d { ip_stats = insert ip stats d.ip_stats }

  unfoldable pub unblock_ip : Detector F → Bytes → Detector F
  unblock_ip d ip = elim (lookup ip d.ip_stats) [
    | none ↦ d
    | some s ↦ store d ip (record s { is_blocked = false; failed_attempts = 0 })
  ]

  unfoldable pub reset_ip_stats : Detector F → Bytes → Detector F
  reset_ip_stats d ip = record d { ip_stats = erase ip d.ip_stats }

  -- The ban is still in force.
  unfoldable pub banned : ℕ → IpStatistics F → Bool
  banned now s = s.is_blocked && ltb_ℤ (pos now) s.blocked_until

  unfoldable pub get_blocked_ips : Detector F → ℕ → List (Bytes × IpStatistics F)
  unfolding banned filter
  get_blocked_ips d now = filter (λ e. banned now e.1) d.ip_stats

  -- `cleanup`: what was not used for half an hour goes, but no address that is marked as blocked.
  unfoldable pub cleanup : Detector F → ℕ → Detector F
  cleanup d now = record d {
    ip_stats =
        retain (λ s. leb_ℤ (pos now -ℤ pos s.last_attempt) (pos (30 * minute)) || s.is_blocked)
          d.ip_stats;
    path_stats =
        retain (λ s. leb_ℤ (pos now -ℤ pos s.last_access) (pos (30 * minute))) d.path_stats;
  }

module _ {F : Type 0} ⦃fl : Float64 F⦄ where
  abbrev pub new_statistics : ℕ → IpStatistics F
  new_statistics now = record {
    failed_attempts = 0;
    successful_attempts = 0;
    last_attempt = 0;
    first_attempt = now;
    is_blocked = false;
    blocked_until = pos 0;
    total_requests = 0;
    unique_paths = [];
    unique_user_agents = [];
    request_timestamps = [];
    suspicion_score = fl.lit 0 0;
    is_suspicious = false;
    is_bot = false;
    detected_attacks = [];
  }

  -- The statistics of an address, new if there are none.
  unfoldable pub statistics_of : Detector F → ℕ → Bytes → IpStatistics F
  statistics_of d now ip = elim (lookup ip d.ip_stats) [ none ↦ new_statistics now | some s ↦ s ]

  -- What every request adds to them.
  unfoldable pub note_request :
      IpStatistics F → ℕ → ParsedRequest → EvaluationResult F → IpStatistics F
  unfolding count_categories
  note_request s now req ev = record s {
    total_requests = suc s.total_requests;
    last_attempt = now;
    unique_paths = insert req.normalized_path true s.unique_paths;
    unique_user_agents = insert req.user_agent true s.unique_user_agents;
    request_timestamps = s.request_timestamps ++ (now ∷ []);
    detected_attacks = count_categories ev.matched_rules s.detected_attacks;
  }

  abbrev pub no_threat : Bytes → BehaviorResult F
  no_threat ip = record {
    client_ip = ip;
    threat_detected = false;
    threat_types = [];
    suspicion_score = fl.lit 0 0;
    recommend_action = "ALLOW";
    blocked_until = pos 0;
  }

  -- A ban that has run out is lifted.
  unfoldable pub lift_ban : IpStatistics F → ℕ → IpStatistics F
  lift_ban s now =
      if s.is_blocked && ltb_ℤ s.blocked_until (pos now)
      then record s { is_blocked = false; failed_attempts = 0 }
      else s

  -- The checks, in their order, with the switches of the configuration.
  unfoldable pub run_checks :
      BehaviorConfig F
      → ℕ
      → ParsedRequest
      → EvaluationResult F
      → IpStatistics F × BehaviorResult F
      → IpStatistics F × BehaviorResult F
  run_checks config now req ev start =
      let a = check_brute_force config now ev start in
      let b = if config.bot_detection_enabled then check_bot_behavior config req a else a in
      let c = if config.velocity_enabled then check_velocity config now b.0 b.1 else b.1 in
      (b.0, check_attack_patterns b.0.detected_attacks c)

  -- The answer to an address whose ban is in force.
  unfoldable pub refuse : Detector F → Bytes → IpStatistics F → Detector F × BehaviorResult F
  refuse d ip s = (
    store d ip s,
    record (no_threat ip) {
      threat_detected = true;
      threat_types = bytes "TEMPORARILY_BLOCKED" ∷ [];
      recommend_action = "BLOCK";
      blocked_until = s.blocked_until;
    },
  )

  -- The answer to any other.
  unfoldable pub inspect :
      Detector F
      → ℕ
      → ParsedRequest
      → EvaluationResult F
      → IpStatistics F
      → Detector F × BehaviorResult F
  inspect d now req ev s =
      let c = run_checks d.config now req ev (lift_ban s now, no_threat req.client_ip) in
      (
        record d {
          ip_stats =
              insert req.client_ip
                (record (c.0) {
                  suspicion_score = c.1.suspicion_score;
                  is_suspicious = fl.flt (fl.lit 5 1) c.1.suspicion_score;
                })
                d.ip_stats;
          path_stats =
              update_path_stats d.path_stats now req.normalized_path req.client_ip
                (ev.decision == "BLOCK");
        },
        c.1,
      )

  unfoldable pub analyze :
      Detector F → ℕ → ParsedRequest → EvaluationResult F → Detector F × BehaviorResult F
  unfolding statistics_of note_request lift_ban run_checks banned refuse inspect
  analyze d now req ev =
      let s = note_request (statistics_of d now req.client_ip) now req ev in
      if banned now s then refuse d req.client_ip s else inspect d now req ev s
