-- ===== src/Behavior/Persist.antt =====
-- internal/behavior/persist.go, without the encoding as JSON and the time of saving.
use custom_waf.Base.{
  ℕ, ◌-◌, Bool, true, List, [], ◌∷◌, ℤ, Bytes, Bytes_eq, String_eq, ℕ_eq, if◌then◌else◌, ltb, eqb,
  insert, length,
}
use custom_waf.Base.{map_values, drop}
use custom_waf.Behavior.Types.{IpStatistics, SessionStatistics, PathStatistics, Detector}

pub record IpStatsWire (F : Type 0) : Type 0 where
  pub failed_attempts : ℕ
  pub successful_attempts : ℕ
  pub last_attempt : ℕ
  pub first_attempt : ℕ
  pub is_blocked : Bool
  pub blocked_until : ℤ
  pub total_requests : ℕ
  pub unique_paths : List Bytes
  pub unique_user_agents : List Bytes
  pub request_timestamps : List ℕ
  pub suspicion_score : F
  pub is_suspicious : Bool
  pub is_bot : Bool
  pub detected_attacks : List (Bytes × ℕ)

pub record PathStatsWire : Type 0 where
  pub path : Bytes
  pub total_access : ℕ
  pub unique_ips : List Bytes
  pub failed_attempts : ℕ
  pub last_access : ℕ

-- The wire form of a session has its fields.
pub record DetectorSnapshot (F : Type 0) : Type 0 where
  pub version : ℕ
  pub ip_stats : List (Bytes × IpStatsWire F)
  pub session_stats : List (Bytes × SessionStatistics)
  pub path_stats : List (Bytes × PathStatsWire)

abbrev pub request_timestamps_cap : ℕ
request_timestamps_cap = 256

-- `keysOfBool`
unfoldable pub keys_of_bool : List (Bytes × Bool) → List Bytes
keys_of_bool [] = []
keys_of_bool ((k, b) ∷ m) = k ∷ keys_of_bool m

-- `boolSetFromKeys`
unfoldable pub bool_set_from_keys : List Bytes → List (Bytes × Bool)
bool_set_from_keys [] = []
bool_set_from_keys (k ∷ ks) = insert k true (bool_set_from_keys ks)

-- The newest timestamps, as many as are kept.
unfoldable pub newest : List ℕ → List ℕ
newest ts =
    if ltb request_timestamps_cap (length ts)
    then drop (length ts - request_timestamps_cap) ts
    else ts

module _ {F : Type 0} where
  unfoldable pub ip_to_wire : IpStatistics F → IpStatsWire F
  unfolding keys_of_bool newest
  ip_to_wire s = record {
    failed_attempts = s.failed_attempts;
    successful_attempts = s.successful_attempts;
    last_attempt = s.last_attempt;
    first_attempt = s.first_attempt;
    is_blocked = s.is_blocked;
    blocked_until = s.blocked_until;
    total_requests = s.total_requests;
    unique_paths = keys_of_bool s.unique_paths;
    unique_user_agents = keys_of_bool s.unique_user_agents;
    request_timestamps = newest s.request_timestamps;
    suspicion_score = s.suspicion_score;
    is_suspicious = s.is_suspicious;
    is_bot = s.is_bot;
    detected_attacks = s.detected_attacks;
  }

  unfoldable pub ip_from_wire : IpStatsWire F → IpStatistics F
  unfolding bool_set_from_keys
  ip_from_wire w = record {
    failed_attempts = w.failed_attempts;
    successful_attempts = w.successful_attempts;
    last_attempt = w.last_attempt;
    first_attempt = w.first_attempt;
    is_blocked = w.is_blocked;
    blocked_until = w.blocked_until;
    total_requests = w.total_requests;
    unique_paths = bool_set_from_keys w.unique_paths;
    unique_user_agents = bool_set_from_keys w.unique_user_agents;
    request_timestamps = w.request_timestamps;
    suspicion_score = w.suspicion_score;
    is_suspicious = w.is_suspicious;
    is_bot = w.is_bot;
    detected_attacks = w.detected_attacks;
  }

unfoldable pub path_to_wire : PathStatistics → PathStatsWire
unfolding keys_of_bool
path_to_wire s = record {
  path = s.path;
  total_access = s.total_access;
  unique_ips = keys_of_bool s.unique_ips;
  failed_attempts = s.failed_attempts;
  last_access = s.last_access;
}

unfoldable pub path_from_wire : PathStatsWire → PathStatistics
unfolding bool_set_from_keys
path_from_wire w = record {
  path = w.path;
  total_access = w.total_access;
  unique_ips = bool_set_from_keys w.unique_ips;
  failed_attempts = w.failed_attempts;
  last_access = w.last_access;
}

module _ {F : Type 0} where
  unfoldable pub snapshot_detector : Detector F → DetectorSnapshot F
  unfolding map_values ip_to_wire path_to_wire
  snapshot_detector d = record {
    version = 1;
    ip_stats = map_values ip_to_wire d.ip_stats;
    session_stats = d.session_stats;
    path_stats = map_values path_to_wire d.path_stats;
  }

  unfoldable pub restore_detector : Detector F → DetectorSnapshot F → Detector F
  unfolding map_values ip_from_wire path_from_wire
  restore_detector d snap =
      if eqb snap.version 1
      then record d {
        ip_stats = map_values ip_from_wire snap.ip_stats;
        session_stats = snap.session_stats;
        path_stats = map_values path_from_wire snap.path_stats;
      }
      else d
