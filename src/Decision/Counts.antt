-- ===== src/Decision/Counts.antt =====
-- What internal/decision/decision.go counts and answers, over any run of requests.
use custom_waf.Engine.Types.{EvaluationResult, ParsedRequest}
use custom_waf.Decision.Verdict.{
  apply_thresholds, override, decide_with_details, combined_score, initial_result, move_count,
}
use custom_waf.Base.{
  ℕ, String, ◌≡◌, Float64, ◌+◌, suc, ◌<◌, arith, ◌≤◌, Option, some, eq_iff, none, ◌⊎◌, inl, inr,
  false, Bytes_eq, String_eq, ℕ_eq, ◌==◌, Bool-cases,
}
use custom_waf.Decision.Types.{
  DecisionEngine, DecisionConfig, DecisionResult, DecisionStats, BehaviorResult, zero_stats,
}

-- The counters add up.
pub record IsBalanced (s : DecisionStats) : Type 0 where
  pub total : s.total_decisions ≡ s.allow_count + s.monitor_count + s.block_count
  pub white_allowed : s.whitelist_hits ≤ s.allow_count
  pub black_blocked : s.blacklist_hits ≤ s.block_count

-- While a decision is under way, one request is counted in `total_decisions` only.
record IsPending (s : DecisionStats) : Type 0 where
  total : s.total_decisions ≡ suc (s.allow_count + s.monitor_count + s.block_count)
  white_allowed : s.whitelist_hits ≤ s.allow_count
  black_blocked : s.blacklist_hits ≤ s.block_count

-- The counters with the request under its decision.
record IsGraded (d : String) (s : DecisionStats) : Type 0 where
  verdict : (d ≡ "ALLOW") ⊎ ((d ≡ "MONITOR") ⊎ (d ≡ "BLOCK"))
  balanced : IsBalanced s
  allowed : d ≡ "ALLOW" → s.whitelist_hits < s.allow_count
  monitored : d ≡ "MONITOR" → 0 < s.monitor_count

pub zero_stats-IsBalanced : IsBalanced zero_stats
zero_stats-IsBalanced = omega arith

move_count-IsBalanced :
    (d : String) (s : DecisionStats)
    → IsGraded d s
    → (d == "BLOCK") ≡ false
    → IsBalanced (move_count d s)
unfolding move_count
move_count-IsBalanced d s g h = elim g.verdict [
  | inl a ↦ ground (arith, eq_iff d "ALLOW")
  | inr (inl m) ↦ ground (arith, eq_iff d "ALLOW", eq_iff d "MONITOR")
  | inr (inr b) ↦ ground (arith, eq_iff d "BLOCK")
]

module _ {F : Type 0} ⦃fl : Float64 F⦄ where
  apply_thresholds-IsGraded :
      (config : DecisionConfig F) (ev : EvaluationResult F) (behavior : Option (BehaviorResult F))
      (r : DecisionResult F) (s : DecisionStats)
      → IsPending s
      → let a = apply_thresholds config ev behavior (r, s) in IsGraded a.0.decision a.1
  unfolding apply_thresholds
  apply_thresholds-IsGraded config ev behavior r s p =
      ground (arith, eq_iff "BLOCK" "ALLOW", eq_iff "BLOCK" "MONITOR", eq_iff "ALLOW" "MONITOR")

  override-IsBalanced :
      (behavior : Option (BehaviorResult F)) (r : DecisionResult F) (s : DecisionStats)
      → IsGraded r.decision s
      → IsBalanced (override behavior (r, s)).1
  unfolding override
  override-IsBalanced none r s g = g.balanced
  override-IsBalanced (some b) r s g = elim (Bool-cases (r.decision == "BLOCK")) [
    | inl y ↦ ground (arith, g.balanced)
    | inr n ↦ ground (arith, g.balanced, move_count-IsBalanced r.decision s g n)
  ]

  -- Every decision is counted once: if the total is the sum of the allowed, the monitored and the
  -- blocked before it, and the hits of the allow list and of the deny list are among the allowed
  -- and the blocked, so they are after it, also where the behaviour analysis turns an earlier
  -- verdict into a block.
  pub decide-IsBalanced :
      (de : DecisionEngine F) (now : ℕ) (ev : EvaluationResult F) (req : ParsedRequest)
      (behavior : Option (BehaviorResult F))
      → IsBalanced de.stats
      → IsBalanced (decide_with_details de now ev req behavior).0.stats
  unfolding decide_with_details
  decide-IsBalanced de now ev req behavior h =
      let score = combined_score de.config ev behavior in
      let scored = record (initial_result de.config ev) {
        final_score = score.0;
        behavior_score = score.1;
      } in
      let stats = record (de.stats) { total_decisions = suc de.stats.total_decisions } in
      let a = apply_thresholds de.config ev behavior (scored, stats) in
      ground (
        arith,
        apply_thresholds-IsGraded de.config ev behavior scored stats,
        override-IsBalanced behavior a.0 a.1,
      )
