-- ===== src/Engine/Evaluate.antt =====
-- `Evaluate` of internal/engine/rule_engine.go: one pass over the rules, which share the score, the
-- labels, the counters and the metrics.
use custom_waf.Engine.MlHook.{MlPredictor, run_ml_confirm}
use custom_waf.Engine.Filter.{has_label, matches_when, is_empty, matches_except}
use custom_waf.Engine.Tracker.{Tracker, track_key, resolve_identity, incr}
use custom_waf.Base.{
  ℕ, suc, String, Bool, true, false, not, ◌&&◌, ◌||◌, Option, none, some, List, [], ◌∷◌, ◌++◌, pos,
  Bytes, Bytes_eq, String_eq, ℕ_eq, bytes, if◌then◌else◌, ◌==◌, lookup, insert, Float64, int64,
}
use custom_waf.Base.{take, leb_ℤ, ◌*ℤ◌}
use custom_waf.Engine.Types.{ParsedRequest, Rule, MlConfirm, TrackCfg, EvaluationResult}
use custom_waf.Engine.Platform.{Platform}
use custom_waf.Engine.Detect.{Detection, evaluate_detect}

-- `RuleMetrics`, without the average time that nothing updates.
pub record RuleMetrics : Type 0 where
  pub total_evaluations : ℕ
  pub total_matches : ℕ
  pub total_blocks : ℕ
  pub rule_hit_count : List (Bytes × ℕ)
  pub category_stats : List (Bytes × ℕ)

pub record RuleEngine (F : Type 0) : Type 0 where
  pub rules : List (Rule F)
  pub rule_cache : List (Bytes × Rule F)
  pub block_threshold : F
  pub monitor_threshold : F
  pub ml_pred : Option (MlPredictor F)
  pub tracker : Tracker
  pub metrics : RuleMetrics

-- What the loop over the rules carries.
pub record Progress (F : Type 0) : Type 0 where
  pub result : EvaluationResult F
  pub tracker : Tracker
  pub metrics : RuleMetrics

-- A label is added once.
unfoldable pub add_label : List Bytes → Bytes → List Bytes
add_label labels l = if has_label labels l then labels else labels ++ (l ∷ [])

unfoldable pub add_labels : List Bytes → List Bytes → List Bytes
unfolding add_label
add_labels labels [] = labels
add_labels labels (l ∷ ls) = add_labels (add_label labels l) ls

abbrev pub or_zero : Option ℕ → ℕ
or_zero none = 0
or_zero (some n) = n

-- `m[k]++`
unfoldable pub count_up : Bytes → List (Bytes × ℕ) → List (Bytes × ℕ)
count_up k m = insert k (suc (or_zero (lookup k m))) m

-- `updateMetrics`
unfoldable pub update_metrics : RuleMetrics → Bytes → Bytes → RuleMetrics
unfolding count_up
update_metrics m rule_id category = record m {
  rule_hit_count = count_up rule_id m.rule_hit_count;
  category_stats = count_up category m.category_stats;
}

module _ {F : Type 0} ⦃fl : Float64 F⦄ (pl : Platform F) where
  -- `determineDecision`
  unfoldable pub determine_decision : RuleEngine F → F → String
  determine_decision re score =
      if fl.fle re.block_threshold score
      then "BLOCK"
      else if fl.flt (fl.lit 0 0) score && fl.fle re.monitor_threshold score
      then "MONITOR"
      else "ALLOW"

  -- The ML part of a hit, for a rule that asks for it.
  unfoldable pub confirm_step :
      Option (MlPredictor F)
      → Option (MlConfirm F)
      → ParsedRequest
      → F × List Bytes
      → F × List Bytes
  confirm_step ml none req (score, labels) = (score, labels)
  confirm_step ml (some cfg) req (score, labels) =
      let r = run_ml_confirm pl ml cfg req in
      if cfg.enabled then (fl.fadd score r.0, add_labels labels r.1) else (score, labels)

  -- The counting part of a hit: whether the threshold is reached, score, labels and counters.
  unfoldable pub track_step :
      Option (TrackCfg F)
      → ParsedRequest
      → ℕ
      → F × List Bytes
      → Tracker
      → Bool × F × List Bytes × Tracker
  track_step none req now (score, labels) tr = (false, score, labels, tr)
  track_step (some t) req now (score, labels) tr =
      let key = track_key (bytes t.scope) t.counter (resolve_identity t.scope req) in
      let r = incr tr now key (int64 (t.ttl_minutes *ℤ pos 60000000000)) in
      if not t.enabled
      then (false, score, labels, tr)
      else if leb_ℤ t.threshold (pos r.1)
      then (true, fl.fadd score t.on_threshold_score, add_labels labels t.on_threshold_labels, r.0)
      else (false, score, labels, r.0)

  -- The track bonus alone reaches the block threshold.
  abbrev pub bonus_blocks : RuleEngine F → Bool → Option (TrackCfg F) → Bool
  bonus_blocks re track_hit none = false
  bonus_blocks re track_hit (some t) = track_hit && fl.fle re.block_threshold t.on_threshold_score

  abbrev pub or_lit0 : Option F → F
  or_lit0 none = fl.lit 0 0
  or_lit0 (some x) = x

  -- What a rule that matched does.
  unfoldable pub apply_hit :
      RuleEngine F → ParsedRequest → ℕ → Rule F → Detection → Progress F → Progress F
  apply_hit re req now rule d p =
      let base = fl.fmul rule.action.score rule.compiled.sev_mul in
      let confirmed = confirm_step re.ml_pred rule.action.ml_confirm req (base, p.result.labels) in
      let t = track_step rule.action.track req now confirmed p.tracker in
      let score = t.1 in
      record {
        result = record {
          total_score = fl.fadd p.result.total_score score;
          matched_rules =
              p.result.matched_rules
              ++ (record {
                rule_id = rule.id;
                rule_name = rule.info.description;
                matched_on = d.matched_on;
                pattern = d.pattern;
                value = take 4096 d.value;
                offset = d.offset;
                score = score;
                severity = rule.info.severity;
                category = rule.info.category;
                labels = rule.action.labels;
              }
                  ∷ []);
          decision =
              if rule.action.block || bonus_blocks re t.0 rule.action.track
              then "BLOCK"
              else p.result.decision;
          bucket_scores =
              insert rule.info.category
                (fl.fadd (or_lit0 (lookup rule.info.category p.result.bucket_scores)) score)
                p.result.bucket_scores;
          labels = add_labels t.2 rule.action.labels;
        };
        tracker = t.3;
        metrics = update_metrics p.metrics rule.id rule.info.category;
      }

  -- One rule: enabled, not filtered out, not excepted, and detected.
  unfoldable pub rule_step :
      (Bytes → Bytes) → RuleEngine F → ParsedRequest → ℕ → Rule F → Progress F → Progress F
  rule_step trim re req now rule p =
      if not rule.enabled
      then p
      else if not (matches_when pl rule req p.result.total_score p.result.labels)
      then p
      else if matches_except pl rule req p.result.labels
      then p
      else elim (evaluate_detect pl trim rule req) [
        | none ↦ p
        | some d ↦ apply_hit re req now rule d p
      ]

  unfoldable pub rules_loop :
      (Bytes → Bytes) → RuleEngine F → ParsedRequest → ℕ → List (Rule F) → Progress F → Progress F
  rules_loop trim re req now [] p = p
  rules_loop trim re req now (rule ∷ rules) p =
      rules_loop trim re req now rules (rule_step trim re req now rule p)

  abbrev pub empty_result : EvaluationResult F
  empty_result = record {
    total_score = fl.lit 0 0;
    matched_rules = [];
    decision = "ALLOW";
    bucket_scores = [];
    labels = [];
  }

  -- The counts at the end of an evaluation.
  unfoldable pub count_evaluation : RuleMetrics → EvaluationResult F → RuleMetrics
  count_evaluation m r = record m {
    total_evaluations = suc m.total_evaluations;
    total_matches = if is_empty r.matched_rules then m.total_matches else suc m.total_matches;
    total_blocks = if r.decision == "BLOCK" then suc m.total_blocks else m.total_blocks;
  }

  unfoldable pub evaluate :
      (Bytes → Bytes) → RuleEngine F → ℕ → ParsedRequest → RuleEngine F × EvaluationResult F
  evaluate trim re now req =
      let p =
        rules_loop trim re req now re.rules
          (record { result = empty_result; tracker = re.tracker; metrics = re.metrics }) in
      let result = record (p.result) {
        decision =
            if p.result.decision == "BLOCK"
            then "BLOCK"
            else determine_decision re p.result.total_score;
      } in
      (record re { tracker = p.tracker; metrics = count_evaluation p.metrics result }, result)
