-- ===== src/Engine/Validate.antt =====
-- Validation of rules, internal/engine/rule_engine.go. The parsed rules are an argument (loader.go
-- reads JSON); a failed parse is `none`.

use custom_waf.Base.{
  ℕ, suc, String, Bool, true, false, not, ◌&&◌, ◌||◌, Option, none, some, List, [], ◌∷◌, pos, Bytes,
  Bytes_eq, String_eq, ℕ_eq, bytes, bytes_beq, if◌then◌else◌, ◌==◌, Float64,
}
use custom_waf.Base.{any, leb_ℤ}
use custom_waf.Engine.Types.{Rule, MlConfirm, TrackCfg}
use custom_waf.Engine.Filter.{is_empty}

pub data LoadError : Type 0 where
  parse_failed no_rules id_required duplicate_id category_required category_invalid : LoadError
  severity_invalid inspect_required patterns_required logic_invalid scope_invalid : LoadError
  confidence_invalid : LoadError

pub data Result {ℓ} (R : Type ℓ) : Type ℓ where
  ok : R → Result R
  err : LoadError → Result R

infixl 5 ◌>>=◌ ◌>>◌
abbrev pub ◌>>=◌ {ℓ κ} : {R : Type ℓ} {S : Type κ} → Result R → (R → Result S) → Result S
ok r >>= next = next r
err why >>= next = err why

abbrev pub ◌>>◌ {ℓ} : {S : Type ℓ} → Result (Unit {0}) → Result S → Result S
check >> after = check >>= λ u. after

-- `if bad { return error }`
abbrev pub reject_if : Bool → LoadError → Result (Unit {0})
reject_if true e = err e
reject_if false e = ok tt

abbrev pub valid_categories : List Bytes
valid_categories =
    bytes "sqli"
    ∷ bytes "xss"
    ∷ bytes "lfi"
    ∷ bytes "rce"
    ∷ bytes "ssrf"
    ∷ bytes "xxe"
    ∷ bytes "nosqli"
    ∷ bytes "scanner"
    ∷ bytes "bot"
    ∷ bytes "ato"
    ∷ bytes "dos"
    ∷ bytes "info_leak"
    ∷ bytes "schema"
    ∷ bytes "custom"
    ∷ []

unfoldable pub valid_severity : String → Bool
valid_severity s =
    s == "critical" || (s == "high" || (s == "medium" || (s == "low" || s == "info")))

unfoldable pub valid_track_scope : String → Bool
valid_track_scope s = s == "ip" || (s == "session" || s == "global")

abbrev pub counted {ℓ} : {A : Type ℓ} → Result A → ℕ → ℕ
counted (ok a) n = suc n
counted (err e) n = n

abbrev pub first_error {ℓ} : {A : Type ℓ} → Option LoadError → Result A → Option LoadError
first_error (some e) r = some e
first_error none (ok a) = none
first_error none (err e) = some e

module _ {F : Type 0} where
  -- The defaults of an enabled `track`.
  unfoldable pub default_track : Bytes → TrackCfg F → TrackCfg F
  default_track id t = record t {
    threshold = if leb_ℤ t.threshold (pos 0) then pos 5 else t.threshold;
    ttl_minutes = if leb_ℤ t.ttl_minutes (pos 0) then pos 10 else t.ttl_minutes;
    counter = if bytes_beq t.counter [] then id else t.counter;
  }

  unfoldable pub validate_track : Bytes → Option (TrackCfg F) → Result (Option (TrackCfg F))
  unfolding default_track
  validate_track id none = ok none
  validate_track id (some t) = if not t.enabled then ok (some t) else do
    reject_if (not (valid_track_scope t.scope)) scope_invalid
    ok (some (default_track id t))

module _ {F : Type 0} ⦃fl : Float64 F⦄ where
  unfoldable pub validate_ml : Option (MlConfirm F) → Result (Option (MlConfirm F))
  validate_ml none = ok none
  validate_ml (some m) = if not m.enabled then ok (some m) else do
    reject_if (fl.flt m.min_confidence (fl.lit 0 0) || fl.flt (fl.lit 1 0) m.min_confidence)
        confidence_invalid
    ok (some (record m { input = if bytes_beq m.input [] then bytes "body" else m.input }))

  -- The severity and the logic, with their defaults.
  abbrev pub severity_of : Rule F → String
  severity_of r = if r.info.severity == "" then "medium" else r.info.severity

  abbrev pub logic_of : Rule F → String
  logic_of r = if r.detect.logic == "" then "any" else r.detect.logic

  -- The checks of `validateRule` on category, severity, inputs, patterns and logic.
  unfoldable pub validate_shape : Rule F → Result (Unit {0})
  validate_shape r = do
    reject_if (bytes_beq r.info.category []) category_required
    reject_if (not (any (bytes_beq r.info.category) valid_categories)) category_invalid
    reject_if (not (valid_severity (severity_of r))) severity_invalid
    reject_if (is_empty r.inspect) inspect_required
    reject_if (is_empty r.detect.patterns) patterns_required
    reject_if (not (logic_of r == "any") && not (logic_of r == "all")) logic_invalid

  -- `validateRule` once the id is known to be new; the rule comes back with its defaults.
  unfoldable pub validate_body : Rule F → Result (Rule F)
  validate_body r = do
    validate_shape r
    track ← validate_track r.id r.action.track
    ml ← validate_ml r.action.ml_confirm
    ok (record r {
      info = record (r.info) { severity = severity_of r };
      detect = record (r.detect) { logic = logic_of r };
      action = record (r.action) { track = track; ml_confirm = ml };
    })

  -- `validateRule`: the ids that were seen, with this one unless it is empty or was seen, and the
  -- result.
  unfoldable pub validate_rule : Rule F → List Bytes → List Bytes × Result (Rule F)
  validate_rule r seen =
      if bytes_beq r.id []
      then (seen, err id_required)
      else if any (bytes_beq r.id) seen
      then (seen, err duplicate_id)
      else (r.id ∷ seen, validate_body r)

  -- The loop of `ValidateRulesJSON`: the valid rules are counted, and the first error is kept.
  unfoldable pub validate_loop :
      List Bytes → ℕ → Option LoadError → List (Rule F) → ℕ × Option LoadError
  validate_loop seen count first [] = (count, first)
  validate_loop seen count first (r ∷ rules) =
      let v = validate_rule r seen in
      validate_loop v.0 (counted v.1 count) (first_error first v.1) rules

  unfoldable pub validate_rules_json : Option (List (Rule F)) → ℕ × Option LoadError
  unfolding validate_loop
  validate_rules_json none = (0, some parse_failed)
  validate_rules_json (some []) = (0, some no_rules)
  validate_rules_json (some (r ∷ rules)) = validate_loop [] 0 none (r ∷ rules)
