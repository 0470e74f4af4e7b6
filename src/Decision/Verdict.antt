-- ===== src/Decision/Verdict.antt =====
-- `DecideWithDetails` of internal/decision/decision.go. Blacklist, whitelist, combined score,
-- thresholds, override by the behaviour analysis, in this order, with the statistics that each adds.
use custom_waf.Decision.Reason.{build_reason, format_threat_types}
use custom_waf.Decision.Lists.{is_blacklisted, is_whitelisted}
use custom_waf.RateLimit.Types.{minute}
use custom_waf.Engine.Types.{EvaluationResult, ParsedRequest}
use custom_waf.Base.{
  ℕ, String, [], suc, bytes, Option, Float64, some, if◌then◌else◌, ◌++◌, ◌*◌, ◌==◌, ◌&&◌, ◌-◌, not,
  String_eq, none, false, true,
}
use custom_waf.Decision.Types.{
  DecisionEngine, DecisionConfig, DecisionResult, DecisionStats, BehaviorResult, zero_stats,
}

abbrev pub hour : ℕ
hour = 3600000000000

-- The counter of the decision that is overridden was raised just before.
unfoldable pub move_count : String → DecisionStats → DecisionStats
move_count original stats =
    if original == "ALLOW"
    then record stats { allow_count = stats.allow_count - 1; block_count = suc stats.block_count }
    else if original == "MONITOR"
    then record stats {
      monitor_count = stats.monitor_count - 1;
      block_count = suc stats.block_count;
    }
    else record stats { block_count = suc stats.block_count }

module _ {F : Type 0} ⦃fl : Float64 F⦄ where
  unfoldable pub calculate_block_duration : F → ℕ
  calculate_block_duration score =
      if fl.fle (fl.lit 200 1) score
      then 24 * hour
      else if fl.fle (fl.lit 150 1) score
      then 6 * hour
      else if fl.fle (fl.lit 120 1) score
      then hour
      else 15 * minute

  -- What every decision starts from.
  abbrev pub initial_result : DecisionConfig F → EvaluationResult F → DecisionResult F
  initial_result config ev = record {
    decision = config.default_action;
    reason = [];
    final_score = fl.lit 0 0;
    rule_score = ev.total_score;
    behavior_score = fl.lit 0 0;
    is_whitelisted = false;
    is_blacklisted = false;
    block_duration = 0;
    response_code = 200;
    response_message = "";
  }

  -- Step 3: the final score, and the part of the behaviour analysis.
  unfoldable pub combined_score :
      DecisionConfig F → EvaluationResult F → Option (BehaviorResult F) → F × F
  combined_score config ev none = (ev.total_score, fl.lit 0 0)
  combined_score config ev (some b) =
      let behavior_score = fl.fmul b.suspicion_score (fl.lit 100 1) in
      if config.use_behavior_score
      then (
        fl.fadd ev.total_score (fl.fmul behavior_score config.behavior_score_weight),
        behavior_score,
      )
      else (ev.total_score, fl.lit 0 0)

  -- Step 4: the thresholds.
  unfoldable pub apply_thresholds :
      DecisionConfig F
      → EvaluationResult F
      → Option (BehaviorResult F)
      → DecisionResult F × DecisionStats
      → DecisionResult F × DecisionStats
  unfolding build_reason calculate_block_duration
  apply_thresholds config ev behavior (result, stats) =
      if fl.fle config.block_threshold result.final_score
      then (
        record result {
          decision = "BLOCK";
          reason = build_reason (bytes "Score exceeds block threshold") ev behavior;
          response_code = 403;
          response_message = "Request blocked by WAF";
          block_duration = calculate_block_duration result.final_score;
        },
        record stats { block_count = suc stats.block_count },
      )
      else if fl.flt (fl.lit 0 0) result.final_score
          && fl.fle config.monitor_threshold result.final_score
      then (
        record result {
          decision = "MONITOR";
          reason = build_reason (bytes "Request matched rules (monitored)") ev behavior;
          response_code = 200;
        },
        record stats { monitor_count = suc stats.monitor_count },
      )
      else (
        record result {
          decision = "ALLOW";
          reason = bytes "Score below all thresholds";
          response_code = 200;
        },
        record stats { allow_count = suc stats.allow_count },
      )

  -- Step 5: a critical recommendation of the behaviour analysis.
  unfoldable pub override :
      Option (BehaviorResult F)
      → DecisionResult F × DecisionStats
      → DecisionResult F × DecisionStats
  unfolding move_count
  override none (result, stats) = (result, stats)
  override (some b) (result, stats) =
      if b.threat_detected && (b.recommend_action == "BLOCK" && not (result.decision == "BLOCK"))
      then (
        record result {
          decision = "BLOCK";
          reason = bytes "Overridden by behavior detection: " ++ format_threat_types b.threat_types;
          response_code = 403;
        },
        move_count result.decision stats,
      )
      else (result, stats)

  -- Steps 1 and 2 and what follows them.
  unfoldable pub decide_with_details :
      DecisionEngine F
      → ℕ
      → EvaluationResult F
      → ParsedRequest
      → Option (BehaviorResult F)
      → DecisionEngine F × DecisionResult F
  decide_with_details de now ev req behavior =
      let result = initial_result de.config ev in
      let stats = record (de.stats) { total_decisions = suc de.stats.total_decisions } in
      let score = combined_score de.config ev behavior in
      let scored = record result { final_score = score.0; behavior_score = score.1 } in
      let last = override behavior (apply_thresholds de.config ev behavior (scored, stats)) in
      if de.config.enable_blacklist && is_blacklisted de now req.client_ip
      then (
        record de {
          stats = record stats {
            blacklist_hits = suc stats.blacklist_hits;
            block_count = suc stats.block_count;
          };
        },
        record result {
          decision = "BLOCK";
          reason = bytes "IP is blacklisted";
          is_blacklisted = true;
          response_code = 403;
          response_message = "Access Denied";
        },
      )
      else if de.config.enable_whitelist && is_whitelisted de now req.client_ip req.normalized_path
      then (
        record de {
          stats = record stats {
            whitelist_hits = suc stats.whitelist_hits;
            allow_count = suc stats.allow_count;
          };
        },
        record result {
          decision = "ALLOW";
          reason = bytes "IP or path is whitelisted";
          is_whitelisted = true;
          response_code = 200;
        },
      )
      else (record de { stats = last.1 }, last.0)

  -- `Decide`
  unfoldable pub decide :
      DecisionEngine F → ℕ → EvaluationResult F → ParsedRequest → DecisionEngine F × String
  unfolding decide_with_details
  decide de now ev req = let r = decide_with_details de now ev req none in (r.0, r.1.decision)

  unfoldable pub reset_stats : DecisionEngine F → DecisionEngine F
  reset_stats de = record de { stats = zero_stats }
