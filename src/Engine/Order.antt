-- ===== src/Engine/Order.antt =====
-- What `evaluateDetect` of internal/engine/rule_engine.go decides, in whatever order it goes
-- through the map of its inputs.
use custom_waf.Base.{
  ℕ, suc, ◌≡◌, refl, ◌∙◌, inl, inr, Bool, ◌||◌, Option, none, some, List, [], ◌∷◌, arith, Bytes,
  Bytes_eq, String_eq, ℕ_eq, if◌then◌else◌, ◌==◌, Bool-cases, Float64,
}
use custom_waf.Base.{any, all}
use mathlib.Core.List.{Perm, Permᴰ}
use mathlib.Core.Logic.{∥∥₁_elim}
use mathlib.Core.Bool.{Bool-set}
use custom_waf.Engine.Types.{Rule, Pattern}
use custom_waf.Engine.Platform.{Platform}
use custom_waf.Engine.Operators.{match_pattern}
use custom_waf.Engine.Filter.{is_some}
use custom_waf.Engine.Detect.{
  Detection, first_some, detect_input, detect_inputs, match_any, match_all, apply_transforms,
  pattern_descriptor,
}

is_some-first_some : (a b : Option Detection) → is_some (first_some a b) ≡ (is_some a || is_some b)
is_some-first_some none b = refl
is_some-first_some (some d) b = refl

-- The elements with their places.
unfoldable pub numbered : {A : Type 0} → ℕ → List A → List (ℕ × A)
numbered i [] = []
numbered i (x ∷ xs) = (i, x) ∷ numbered (suc i) xs

module _ {F : Type 0} ⦃fl : Float64 F⦄ (pl : Platform F) (rule : Rule F) where
  -- The pattern at this place matches the text.
  abbrev pub pattern_hits : Bytes → ℕ × Pattern → Bool
  pattern_hits text (i, p) = (match_pattern pl rule i p text).0

  -- One input, after its transforms, satisfies every pattern of the rule, or some pattern.
  abbrev pub satisfies : Bytes × Bytes → Bool
  satisfies (label, raw) =
      let hits = pattern_hits (apply_transforms pl raw rule.transforms) in
      let patterns = numbered 0 rule.detect.patterns in
      if rule.detect.logic == "all" then all hits patterns else any hits patterns

  is_some-match_any :
      (label raw text : Bytes) (i : ℕ) (ps : List Pattern)
      → is_some (match_any pl rule label raw text i ps) ≡ any (pattern_hits text) (numbered i ps)
  unfolding match_any any numbered
  is_some-match_any label raw text i [] = refl
  is_some-match_any label raw text i (p ∷ ps) =
      ground (arith, is_some-match_any label raw text (suc i) ps)

  is_some-match_all :
      (text : Bytes) (last : Detection) (i : ℕ) (ps : List Pattern)
      → is_some (match_all pl rule text last i ps) ≡ all (pattern_hits text) (numbered i ps)
  unfolding match_all all numbered
  is_some-match_all text last i [] = refl
  is_some-match_all text last i (p ∷ ps) = ground (
    arith,
    is_some-match_all text
        (record last {
          pattern = pattern_descriptor p;
          offset = (match_pattern pl rule i p text).1;
        })
        (suc i) ps,
  )

  is_some-detect_input : (i : Bytes × Bytes) → is_some (detect_input pl rule i) ≡ satisfies i
  unfolding detect_input
  is_some-detect_input (label, raw) = elim (Bool-cases (rule.detect.logic == "all")) [
    | inl y ↦ rw y (is_some-match_all _ _ 0 rule.detect.patterns)
    | inr n ↦ rw n (is_some-match_any label raw _ 0 rule.detect.patterns)
  ]

  is_some-detect_inputs :
      (l : List (Bytes × Bytes)) → is_some (detect_inputs pl rule l) ≡ any satisfies l
  unfolding detect_inputs any
  is_some-detect_inputs [] = refl
  is_some-detect_inputs (i ∷ l) =
      is_some-first_some (detect_input pl rule i) (detect_inputs pl rule l)
      ∙ rw (is_some-detect_input i, is_some-detect_inputs l) refl

  permuted : (l l' : List (Bytes × Bytes)) → Permᴰ l l' → any satisfies l ≡ any satisfies l'
  unfolding any
  permuted _ _ Permᴰ.nil = refl
  permuted _ _ (Permᴰ.cons {a} {b} {l₁} {l₂} e d) = rw (e, permuted l₁ l₂ d) refl
  permuted _ _ (Permᴰ.swap {a} {b} {a'} {b'} {l} e f) = rw (e, f) (ground arith)
  permuted l l' (Permᴰ.trans {l₂ = m} d d') = permuted l m d ∙ permuted m l' d'

  -- In whatever order the map of its inputs is gone through, a rule matches exactly if some input,
  -- after the rule's transforms, satisfies all its patterns (logic "all") or one of them (any other
  -- logic).
  pub detect_inputs-Perm :
      (l l' : List (Bytes × Bytes))
      → Perm l l'
      → is_some (detect_inputs pl rule l) ≡ any satisfies l'
  detect_inputs-Perm l l' p = is_some-detect_inputs l ∙ ∥∥₁_elim p (Bool-set _ _) (permuted l l')
