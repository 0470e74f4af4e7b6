-- ===== src/Decision/Types.antt =====
-- The data of internal/decision/decision.go and its clock. A `time.Time` is a count of nanoseconds,
-- of which 0 is the zero time: an entry without expiry.
use custom_waf.Base.{ℕ, ℤ, Bool, Bytes, String, List, [], Float64, if◌then◌else◌, ◌==◌, String_eq}

pub record DecisionConfig (F : Type 0) : Type 0 where
  pub block_threshold : F
  pub monitor_threshold : F
  pub default_action : String
  pub use_behavior_score : Bool
  pub behavior_score_weight : F
  pub enable_whitelist : Bool
  pub enable_blacklist : Bool
  pub adaptive_threshold : Bool
  pub geo_blocking : Bool
  pub blocked_countries : List Bytes

pub record DecisionStats : Type 0 where
  pub total_decisions : ℕ
  pub allow_count : ℕ
  pub block_count : ℕ
  pub monitor_count : ℕ
  pub whitelist_hits : ℕ
  pub blacklist_hits : ℕ

pub record DecisionEngine (F : Type 0) : Type 0 where
  pub config : DecisionConfig F
  pub whitelist_ips : List (Bytes × ℕ)
  pub blacklist_ips : List (Bytes × ℕ)
  pub whitelist_paths : List (Bytes × Bool)
  pub stats : DecisionStats

-- `DecisionResult`, without the metadata that is only shown.
pub record DecisionResult (F : Type 0) : Type 0 where
  pub decision : String
  pub reason : Bytes
  pub final_score : F
  pub rule_score : F
  pub behavior_score : F
  pub is_whitelisted : Bool
  pub is_blacklisted : Bool
  pub block_duration : ℕ
  pub response_code : ℕ
  pub response_message : String

-- `BehaviorResult` of internal/behavior/detector.go, without its time. `blocked_until` is 0 unless
-- the address is banned.
pub record BehaviorResult (F : Type 0) : Type 0 where
  pub client_ip : Bytes
  pub blocked_until : ℤ
  pub threat_detected : Bool
  pub threat_types : List Bytes
  pub suspicion_score : F
  pub recommend_action : String

pub record IpListEntry : Type 0 where
  pub ip : Bytes
  pub expires_at : ℕ

abbrev pub zero_stats : DecisionStats
zero_stats = record {
  total_decisions = 0;
  allow_count = 0;
  block_count = 0;
  monitor_count = 0;
  whitelist_hits = 0;
  blacklist_hits = 0;
}

-- `NewDecisionEngine`
unfoldable pub new_decision_engine :
    {F : Type 0} ⦃fl : Float64 F⦄ → DecisionConfig F → DecisionEngine F
new_decision_engine ⦃fl⦄ config = record {
  config = record config {
    block_threshold =
        if fl.feq config.block_threshold (fl.lit 0 0) then fl.lit 100 1 else config.block_threshold;
    default_action = if config.default_action == "" then "ALLOW" else config.default_action;
    behavior_score_weight =
        if fl.feq config.behavior_score_weight (fl.lit 0 0)
        then fl.lit 3 1
        else config.behavior_score_weight;
  };
  whitelist_ips = [];
  blacklist_ips = [];
  whitelist_paths = [];
  stats = zero_stats;
}
