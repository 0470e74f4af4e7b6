-- ===== src/Decision/Reason.antt =====
-- The reason that internal/decision/decision.go gives for a decision.

use custom_waf.Engine.Types.{MatchResult, EvaluationResult}
use custom_waf.Base.{
  ℕ, Bytes, List, [], suc, bytes, Option, ◌∷◌, some, if◌then◌else◌, ◌++◌, ltb, length, String_eq,
  zero, none, leb,
}
use custom_waf.Decision.Types.{BehaviorResult}

-- The rest of the loop of `formatThreatTypes`, at most two more names.
unfoldable pub more_threats : ℕ → List Bytes → Bytes
more_threats zero l = []
more_threats (suc n) [] = []
more_threats (suc n) (t ∷ l) = bytes ", " ++ (t ++ more_threats n l)

unfoldable pub format_threat_types : List Bytes → Bytes
unfolding more_threats
format_threat_types [] = bytes "none"
format_threat_types (t ∷ l) =
    t ++ (more_threats 2 l ++ (if ltb 3 (length (t ∷ l)) then bytes "..." else []))

module _ {F : Type 0} where
  -- The loop of `buildReason` over the matched rules, from the index `i` on.
  unfoldable pub rule_names : ℕ → List (MatchResult F) → Bytes
  rule_names i [] = []
  rule_names i (m ∷ rest) =
      let tail = rule_names (suc i) rest in
      (if ltb 0 i then bytes ", " else []) ++ (m.rule_id ++ (if leb 2 i then bytes "..." else tail))

  -- The part of the reason that names the threats.
  unfoldable pub threat_names : Option (BehaviorResult F) → Bytes
  unfolding format_threat_types
  threat_names none = []
  threat_names (some b) = elim b.threat_types [
    | [] ↦ []
    | t ∷ ts ↦ bytes " [Threats: " ++ (format_threat_types (t ∷ ts) ++ bytes "]")
  ]

  -- The part that names the rules.
  unfoldable pub rules_part : List (MatchResult F) → Bytes
  unfolding rule_names
  rules_part [] = []
  rules_part (m ∷ ms) = bytes " (Rules: " ++ (rule_names 0 (m ∷ ms) ++ bytes ")")

  unfoldable pub build_reason : Bytes → EvaluationResult F → Option (BehaviorResult F) → Bytes
  unfolding rules_part threat_names
  build_reason base ev behavior = base ++ (rules_part ev.matched_rules ++ threat_names behavior)
