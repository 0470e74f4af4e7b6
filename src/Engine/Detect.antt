-- ===== src/Engine/Detect.antt =====
-- `evaluateDetect` of internal/engine/rule_engine.go, and the chain of transforms.
use custom_waf.Engine.Operators.{match_pattern}
use custom_waf.Engine.Selector.{join, resolve_inputs}
use custom_waf.Base.{
  ℕ, suc, not, Option, none, some, List, [], ◌∷◌, ◌++◌, ℤ, pos, Bytes, Bytes_eq, String_eq, ℕ_eq,
  bytes, bytes_beq, if◌then◌else◌, ◌==◌, Float64,
}
use custom_waf.Engine.Types.{ParsedRequest, Rule, Pattern}
use custom_waf.Engine.Platform.{Platform}

-- Where and how a rule matched.
pub record Detection : Type 0 where
  pub matched_on : Bytes
  pub pattern : Bytes
  pub value : Bytes
  pub offset : ℤ

unfoldable pub pattern_descriptor : Pattern → Bytes
pattern_descriptor p =
    if not (bytes_beq p.value []) then bytes p.type ++ (bytes ":" ++ p.value) else elim p.values [
      | [] ↦ bytes p.type
      | v ∷ vs ↦ bytes p.type ++ (bytes ":" ++ join (bytes ",") (v ∷ vs))
    ]

abbrev pub first_some {ℓ} : {A : Type ℓ} → Option A → Option A → Option A
first_some none o = o
first_some (some a) o = some a

module _ {F : Type 0} ⦃fl : Float64 F⦄ (pl : Platform F) where
  -- The transforms by name, or by the name in lower case; unknown ones are skipped.
  unfoldable pub apply_transforms : Bytes → List Bytes → Bytes
  apply_transforms value [] = value
  apply_transforms value (name ∷ chain) =
      apply_transforms
        (elim (first_some (pl.transform name) (pl.transform (pl.lower name))) [
          | none ↦ value
          | some f ↦ f value
        ])
        chain

  -- The loop for "any": the first pattern that matches.
  unfoldable pub match_any : Rule F → Bytes → Bytes → Bytes → ℕ → List Pattern → Option Detection
  match_any rule label raw input i [] = none
  match_any rule label raw input i (p ∷ ps) =
      let hit = match_pattern pl rule i p input in
      let rest = match_any rule label raw input (suc i) ps in
      if hit.0
      then some (record {
        matched_on = label;
        pattern = pattern_descriptor p;
        value = raw;
        offset = hit.1;
      })
      else rest

  -- The loop for "all": every pattern matches, and the last one is reported.
  unfoldable pub match_all : Rule F → Bytes → Detection → ℕ → List Pattern → Option Detection
  match_all rule input last i [] = some last
  match_all rule input last i (p ∷ ps) =
      let hit = match_pattern pl rule i p input in
      let rest =
        match_all rule input (record last { pattern = pattern_descriptor p; offset = hit.1 })
          (suc i) ps in
      if hit.0 then rest else none

  -- One input of the rule.
  unfoldable pub detect_input : Rule F → Bytes × Bytes → Option Detection
  detect_input rule (label, raw) =
      let input = apply_transforms raw rule.transforms in
      if rule.detect.logic == "all"
      then match_all rule input
          (record { matched_on = label; pattern = []; value = raw; offset = pos 0 }) 0
          rule.detect.patterns
      else match_any rule label raw input 0 rule.detect.patterns

  -- The loop over the inputs, in the order in which the map is gone through.
  unfoldable pub detect_inputs : Rule F → List (Bytes × Bytes) → Option Detection
  detect_inputs rule [] = none
  detect_inputs rule (input ∷ inputs) =
      first_some (detect_input rule input) (detect_inputs rule inputs)

  unfoldable pub evaluate_detect : (Bytes → Bytes) → Rule F → ParsedRequest → Option Detection
  unfolding detect_inputs
  evaluate_detect trim rule req = detect_inputs rule (resolve_inputs pl trim req rule.inspect [])
