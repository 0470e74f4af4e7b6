-- ===== src/Behavior/Types.antt =====
-- The data of internal/behavior/detector.go. Times are nanoseconds, and an end of a ban is an
-- integer, since a duration may be negative. A Go set is a map into booleans.
use custom_waf.Base.{
  ℕ, Bool, List, [], ℤ, pos, Bytes, Bytes_eq, String_eq, ℕ_eq, if◌then◌else◌, Float64, is_zero,
}

pub record BehaviorConfig (F : Type 0) : Type 0 where
  pub brute_force_threshold : ℤ
  pub brute_force_window : ℤ
  pub block_duration : ℤ
  pub bot_detection_enabled : Bool
  pub bot_score_threshold : F
  pub session_enabled : Bool
  pub max_sessions_per_ip : ℤ
  pub session_duration : ℤ
  pub velocity_enabled : Bool
  pub max_requests_per_second : ℤ
  pub cleanup_interval : ℤ

pub record IpStatistics (F : Type 0) : Type 0 where
  pub failed_attempts : ℕ
  pub successful_attempts : ℕ
  pub last_attempt : ℕ
  pub first_attempt : ℕ
  pub is_blocked : Bool
  pub blocked_until : ℤ
  pub total_requests : ℕ
  pub unique_paths : List (Bytes × Bool)
  pub unique_user_agents : List (Bytes × Bool)
  pub request_timestamps : List ℕ
  pub suspicion_score : F
  pub is_suspicious : Bool
  pub is_bot : Bool
  pub detected_attacks : List (Bytes × ℕ)

-- Nothing writes the sessions but a restored snapshot.
pub record SessionStatistics : Type 0 where
  pub session_id : Bytes
  pub ip_address : Bytes
  pub user_agent : Bytes
  pub created_at : ℕ
  pub last_activity : ℕ
  pub request_count : ℕ
  pub failed_requests : ℕ
  pub blocked_requests : ℕ

pub record PathStatistics : Type 0 where
  pub path : Bytes
  pub total_access : ℕ
  pub unique_ips : List (Bytes × Bool)
  pub failed_attempts : ℕ
  pub last_access : ℕ

-- The ticker of the cleanup goroutine is left out: `cleanup` is an operation of its own.
pub record Detector (F : Type 0) : Type 0 where
  pub ip_stats : List (Bytes × IpStatistics F)
  pub session_stats : List (Bytes × SessionStatistics)
  pub path_stats : List (Bytes × PathStatistics)
  pub config : BehaviorConfig F

-- A field that is zero gets its default.
abbrev pub or_default : ℤ → ℤ → ℤ
or_default n d = if is_zero n then d else n

unfoldable pub new_detector : {F : Type 0} ⦃fl : Float64 F⦄ → BehaviorConfig F → Detector F
new_detector ⦃fl⦄ config = record {
  ip_stats = [];
  session_stats = [];
  path_stats = [];
  config = record config {
    brute_force_threshold = or_default config.brute_force_threshold (pos 5);
    brute_force_window = or_default config.brute_force_window (pos 300000000000);
    block_duration = or_default config.block_duration (pos 600000000000);
    bot_score_threshold =
        if fl.feq config.bot_score_threshold (fl.lit 0 0)
        then fl.lit 7 1
        else config.bot_score_threshold;
    max_sessions_per_ip = or_default config.max_sessions_per_ip (pos 5);
    max_requests_per_second = or_default config.max_requests_per_second (pos 10);
    cleanup_interval = or_default config.cleanup_interval (pos 600000000000);
  };
}
