-- ===== src/Engine/Filter.antt =====
-- The filters of internal/engine/rule_engine.go: `when` and `except`.
use custom_waf.Engine.Operators.{ip_entry_matches}
use custom_waf.Base.{
  Bool, true, false, not, ◌&&◌, ◌||◌, Option, none, some, List, [], ◌∷◌, Bytes, Bytes_eq, String_eq,
  ℕ_eq, bytes_beq, if◌then◌else◌, Float64,
}
use custom_waf.Base.{any, all, has_prefix, index_of}
use custom_waf.Engine.Types.{Rule, ParsedRequest}
use custom_waf.Engine.Platform.{Platform}

-- `labelSet` holds the labels of the result, each once.
abbrev pub has_label : List Bytes → Bytes → Bool
has_label labels l = any (bytes_beq l) labels

abbrev pub is_empty {ℓ} : {A : Type ℓ} → List A → Bool
is_empty [] = true
is_empty (x ∷ xs) = false

abbrev pub is_some {ℓ} : {A : Type ℓ} → Option A → Bool
is_some none = false
is_some (some a) = true

module _ {F : Type 0} ⦃fl : Float64 F⦄ (pl : Platform F) where
  -- `matchesWhen`, with the score so far and the labels so far.
  unfoldable pub matches_when : Rule F → ParsedRequest → F → List Bytes → Bool
  matches_when rule req total labels =
      let w = rule.when in
      (is_empty w.methods || any (λ m. pl.equal_fold m req.method) w.methods)
      && ((is_empty w.path_prefix || any (has_prefix req.normalized_path) w.path_prefix)
          && (not (any (has_prefix req.normalized_path) w.path_exclude)
              && (not (fl.flt (fl.lit 0 0) w.min_score && fl.flt total w.min_score)
                  && (not (fl.flt (fl.lit 0 0) w.max_score && fl.fle w.max_score total)
                      && (all (has_label labels) w.require_labels
                          && not (any (has_label labels) w.exclude_labels))))))

  -- `ipInList`
  unfoldable pub ip_in_list : Bytes → List Bytes → Bool
  ip_in_list client list =
      if bytes_beq client []
      then false
      else elim (pl.parse_ip client) [ none ↦ false | some ip ↦ any (ip_entry_matches pl ip) list ]

  -- `matchesExcept`
  unfoldable pub matches_except : Rule F → ParsedRequest → List Bytes → Bool
  matches_except rule req labels =
      let e = rule.except in
      ip_in_list req.client_ip e.ips
      || (any (bytes_beq req.normalized_path) e.paths
          || (any (has_prefix req.normalized_path) e.path_prefixes
              || (any (λ sub. is_some (index_of (pl.lower req.user_agent) (pl.lower sub)))
                    e.user_agents
                  || any (has_label labels) e.labels)))
