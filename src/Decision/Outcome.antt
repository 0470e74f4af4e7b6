-- ===== src/Decision/Outcome.antt =====
-- What internal/decision/decision.go decides, and what it counts.
use custom_waf.Decision.Lists.{is_blacklisted, is_whitelisted}
use custom_waf.Decision.Verdict.{
  decide_with_details, override, combined_score, apply_thresholds, initial_result,
}
use custom_waf.Engine.Types.{EvaluationResult, ParsedRequest}
use custom_waf.Base.{
  eq_iff, ℕ, Bool, String, Option, Float64, false, if◌then◌else◌, some, ◌&&◌, ◌==◌, none, String_eq,
  ◌≡◌, arith, eq_iff, suc, refl,
}
use custom_waf.Decision.Types.{
  DecisionEngine, DecisionConfig, DecisionResult, DecisionStats, BehaviorResult,
}

-- The behaviour analysis insists on a block.
abbrev pub insists : {F : Type 0} → Option (BehaviorResult F) → Bool
insists none = false
insists (some b) = b.threat_detected && b.recommend_action == "BLOCK"

module _ {F : Type 0} ⦃fl : Float64 F⦄ where
  -- The thresholds alone.
  abbrev pub graded : DecisionConfig F → F → String
  graded config score =
      if fl.fle config.block_threshold score
      then "BLOCK"
      else if fl.flt (fl.lit 0 0) score && fl.fle config.monitor_threshold score
      then "MONITOR"
      else "ALLOW"

  -- The verdict as a table of priorities.
  abbrev pub verdict : DecisionConfig F → Bool → Bool → F → Option (BehaviorResult F) → String
  verdict config black white score behavior =
      if config.enable_blacklist && black
      then "BLOCK"
      else if config.enable_whitelist && white
      then "ALLOW"
      else if insists behavior
      then "BLOCK"
      else if fl.fle config.block_threshold score
      then "BLOCK"
      else if fl.flt (fl.lit 0 0) score && fl.fle config.monitor_threshold score
      then "MONITOR"
      else "ALLOW"

  pub apply_thresholds_decision :
      (config : DecisionConfig F) (ev : EvaluationResult F) (behavior : Option (BehaviorResult F))
      (r : DecisionResult F) (s : DecisionStats)
      → (apply_thresholds config ev behavior (r, s)).0.decision ≡ graded config r.final_score
  unfolding apply_thresholds
  apply_thresholds_decision config ev behavior r s = ground arith

  pub override_decision :
      (behavior : Option (BehaviorResult F)) (r : DecisionResult F) (s : DecisionStats)
      → (override behavior (r, s)).0.decision ≡ (if insists behavior then "BLOCK" else r.decision)
  unfolding override
  override_decision none r s = refl
  override_decision (some b) r s = ground (arith, eq_iff r.decision "BLOCK")

  module _ (de : DecisionEngine F) (now : ℕ) (ev : EvaluationResult F) (req : ParsedRequest) where
    -- The decision follows one table: the deny list first, then the allow list, then a block that
    -- the behaviour analysis insists on, then the two thresholds on the combined score.
    pub decision-verdict :
        (behavior : Option (BehaviorResult F))
        → (decide_with_details de now ev req behavior).1.decision
          ≡ verdict de.config
              (is_blacklisted de now req.client_ip)
              (is_whitelisted de now req.client_ip req.normalized_path)
              (combined_score de.config ev behavior).0
              behavior
    unfolding decide_with_details
    decision-verdict behavior =
        let score = combined_score de.config ev behavior in
        let scored = record (initial_result de.config ev) {
          final_score = score.0;
          behavior_score = score.1;
        } in
        let stats = record (de.stats) { total_decisions = suc de.stats.total_decisions } in
        let a = apply_thresholds de.config ev behavior (scored, stats) in
        ground (
          arith,
          override_decision behavior a.0 a.1,
          apply_thresholds_decision de.config ev behavior scored stats,
        )

    -- The configured default action is never used: with any other, everything that is decided and
    -- counted is the same.
    pub default_action_ignored :
        (behavior : Option (BehaviorResult F)) (action : String)
        → let de' = record de { config = record (de.config) { default_action = action } } in
          ((decide_with_details de' now ev req behavior).1
            ≡ (decide_with_details de now ev req behavior).1)
          × ((decide_with_details de' now ev req behavior).0.stats
              ≡ (decide_with_details de now ev req behavior).0.stats)
    unfolding decide_with_details combined_score apply_thresholds override is_blacklisted
        is_whitelisted
    default_action_ignored none action = (ground arith, ground arith)
    default_action_ignored (some b) action = (ground arith, ground arith)
