-- ===== src/Engine/Load.antt =====
-- Compilation, loading and reloading of rules, internal/engine/rule_engine.go and the end of
-- operators.go. The parsed rules are an argument, as in Validate.
use custom_waf.Engine.Validate.{
  LoadError, ok, err, parse_failed, validate_rule, validate_rules_json,
}
use custom_waf.Engine.Selector.{key_of}
use custom_waf.Engine.Evaluate.{RuleEngine}
use custom_waf.Engine.Operators.{contains_byte}
use custom_waf.Base.{
  ℕ, not, ◌||◌, Option, none, some, List, [], ◌∷◌, ◌++◌, map, Bytes, Bytes_eq, String_eq, ℕ_eq,
  bytes, bytes_beq, if◌then◌else◌, ◌==◌, eqb, insert, Float64, filter,
}
use custom_waf.Engine.Types.{Rule, Pattern, severity_multiplier}
use custom_waf.Engine.Platform.{Platform}
use mathlib.Core.List.{reverse}

-- `strings.Split(s, ",")`, with the part that has been read, in reverse order.
unfoldable pub split_commas : Bytes → Bytes → List Bytes
split_commas part [] = reverse part ∷ []
split_commas part (c ∷ s) =
    let next = split_commas [] s in
    let more = split_commas (c ∷ part) s in if eqb c b',' then reverse part ∷ next else more

module _ {F : Type 0} ⦃fl : Float64 F⦄ where
  module _ (trim : Bytes → Bytes) (pl : Platform F) where
    -- The flags i, m and s that a regular expression asks for.
    abbrev pub flag_prefix : Bytes → Bytes
    flag_prefix flags =
        let i = if contains_byte b'i' flags then bytes "i" else [] in
        let m = if contains_byte b'm' flags then bytes "m" else [] in
        let s = if contains_byte b's' flags then bytes "s" else [] in
        if bytes_beq (i ++ (m ++ s)) [] then [] else bytes "(?" ++ (i ++ (m ++ (s ++ bytes ")")))

    abbrev pub compile_regex_of : Pattern → Option (Bytes → Option ℕ)
    compile_regex_of p =
        if p.type == "regex" then pl.compile_regex (flag_prefix p.flags ++ p.value) else none

    -- The words in lower case: the values, or else the parts of the value between commas.
    abbrev pub wordlist_of : Pattern → List Bytes
    wordlist_of p =
        if p.type == "wordlist"
        then map pl.lower (elim p.values [
          | [] ↦ filter (λ v. not (bytes_beq v [])) (map trim (split_commas [] p.value))
          | v ∷ vs ↦ v ∷ vs
        ])
        else []

    abbrev pub or_lit0 : Option F → F
    or_lit0 none = fl.lit 0 0
    or_lit0 (some x) = x

    -- A threshold that cannot be read is 0.
    abbrev pub numeric_of : Pattern → F
    numeric_of p =
        if p.type == "entropy_gt" || (p.type == "length_gt" || p.type == "length_lt")
        then or_lit0 (pl.parse_float p.value)
        else fl.lit 0 0

    -- `compileRule`
    unfoldable pub compile_rule : Rule F → Rule F
    compile_rule r = record r {
      compiled = record {
        regexes = map compile_regex_of r.detect.patterns;
        wordlists = map wordlist_of r.detect.patterns;
        numerics = map numeric_of r.detect.patterns;
        sev_mul = severity_multiplier r.info.severity;
      };
    }

    -- `addRule`
    unfoldable pub add_rule : RuleEngine F → Rule F → RuleEngine F × Option LoadError
    add_rule re r = elim (validate_rule r (map key_of re.rule_cache)).1 [
      | err e ↦ (re, some e)
      | ok r' ↦ (
        record re {
          rules = re.rules ++ (compile_rule r' ∷ []);
          rule_cache = insert r'.id (compile_rule r') re.rule_cache;
        },
        none,
      )
    ]

    -- The loop of `LoadRulesFromJSON`: it stops at the first rule that is refused.
    unfoldable pub add_rules : RuleEngine F → List (Rule F) → RuleEngine F × Option LoadError
    unfolding add_rule
    add_rules re [] = (re, none)
    add_rules re (r ∷ rules) =
        let a = add_rule re r in
        let rest = add_rules a.0 rules in elim a.1 [ some e ↦ a | none ↦ rest ]

    unfoldable pub load_rules_from_json :
        RuleEngine F → Option (List (Rule F)) → RuleEngine F × Option LoadError
    unfolding add_rules
    load_rules_from_json re none = (re, some parse_failed)
    load_rules_from_json re (some rules) = add_rules re rules

    -- The cache of `ReloadRules`: a later rule of the same id would win.
    unfoldable pub cache_of : List (Bytes × Rule F) → List (Rule F) → List (Bytes × Rule F)
    cache_of cache [] = cache
    cache_of cache (r ∷ rules) = cache_of (insert r.id (compile_rule r) cache) rules

    -- The end of `ReloadRules`, which also resets the counts per rule and per category.
    unfoldable pub install : RuleEngine F → Option (List (Rule F)) → RuleEngine F × Option LoadError
    unfolding cache_of
    install re none = (re, some parse_failed)
    install re (some rules) = (
      record re {
        rules = map compile_rule rules;
        rule_cache = cache_of [] rules;
        metrics = record (re.metrics) { rule_hit_count = []; category_stats = [] };
      },
      none,
    )

    -- `ReloadRules`: the rules are validated, and then parsed once more and installed.
    unfoldable pub reload_rules :
        RuleEngine F → Option (List (Rule F)) → RuleEngine F × Option LoadError
    unfolding validate_rules_json install
    reload_rules re parsed = elim (validate_rules_json parsed).1 [
      | some e ↦ (re, some e)
      | none ↦ install re parsed
    ]
