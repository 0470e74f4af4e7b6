-- ===== src/Decision/Threshold.antt =====
-- The adaptive threshold of internal/decision/decision.go.

use custom_waf.Base.{Bool, Float64, if◌then◌else◌, String_eq}
use custom_waf.Decision.Types.{DecisionEngine, DecisionConfig}

module _ {F : Type 0} ⦃fl : Float64 F⦄ where
  -- Both thresholds times a factor, if the test says so.
  abbrev pub scale : Bool → F → DecisionConfig F → DecisionConfig F
  scale b factor c =
      if b
      then record c {
        block_threshold = fl.fmul c.block_threshold factor;
        monitor_threshold = fl.fmul c.monitor_threshold factor;
      }
      else c

  abbrev pub at_least_5 : DecisionConfig F → DecisionConfig F
  at_least_5 c =
      if fl.flt c.block_threshold (fl.lit 50 1)
      then record c { block_threshold = fl.lit 50 1 }
      else c

  abbrev pub at_most_20 : DecisionConfig F → DecisionConfig F
  at_most_20 c =
      if fl.flt (fl.lit 200 1) c.block_threshold
      then record c { block_threshold = fl.lit 200 1 }
      else c

  unfoldable pub adjust_threshold : DecisionEngine F → F → DecisionEngine F
  adjust_threshold de block_rate =
      if de.config.adaptive_threshold
      then (let raised = scale (fl.flt (fl.lit 100 1) block_rate) (fl.lit 11 1) de.config in
          let lowered = scale (fl.flt block_rate (fl.lit 10 1)) (fl.lit 9 1) raised in
          record de { config = at_most_20 (at_least_5 lowered) })
      else de
