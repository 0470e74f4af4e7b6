-- ===== src/Engine/Labelled.antt =====
-- Where the labels of an evaluation in internal/engine/rule_engine.go come from.
use custom_waf.Engine.Detect.{Detection, evaluate_detect}
use custom_waf.Engine.Tracker.{Tracker, track_key, resolve_identity, incr}
use custom_waf.Engine.MlHook.{MlPredictor, run_ml_confirm}
use custom_waf.Engine.Types.{MatchResult, TrackCfg, ParsedRequest, MlConfirm, Rule}
use custom_waf.Engine.Platform.{Platform}
use custom_waf.Base.{
  ◌≡◌, refl, inl, inr, Bool, ◌||◌, List, [], ◌∷◌, ◌++◌, arith, Bytes, Bytes_eq, String_eq, ℕ_eq,
  bytes_beq, bytes_beq_iff, Bool-cases, ℕ, sym, ap, ◌∙◌, ◌⊎◌, true, false, Option, none, some, pos,
  bytes, if◌then◌else◌, Option-cases, Float64,
}
use custom_waf.Base.{any, all, leb_ℤ, ◌*ℤ◌, int64}
use custom_waf.Engine.Filter.{has_label, matches_when, matches_except}
use custom_waf.Engine.Evaluate.{
  add_label, add_labels, confirm_step, track_step, RuleEngine, Progress, apply_hit, rule_step,
  rules_loop, evaluate, empty_result,
}

any-append :
    {A : Type 0} (p : A → Bool) (xs ys : List A) → any p (xs ++ ys) ≡ (any p xs || any p ys)
unfolding any
any-append p [] ys = refl
any-append p (x ∷ xs) ys = ground (arith, any-append p xs ys)

has_label-add_label :
    (ls : List Bytes) (k l : Bytes)
    → has_label (add_label ls k) l ≡ (has_label ls l || has_label (k ∷ []) l)
unfolding add_label any
has_label-add_label ls k l = elim (Bool-cases (has_label ls k)) [
  | inl y ↦ elim (Bool-cases (bytes_beq l k)) [
    | inl z ↦ let e : l ≡ k = (bytes_beq_iff l k).0 z in rw (e, y) (ground arith)
    | inr z ↦ rw y (ground (arith, z))
  ]
  | inr n ↦ rw n (any-append (bytes_beq l) ls (k ∷ []))
]

-- What was there before and what is added.
has_label-add_labels :
    (ls ks : List Bytes) (l : Bytes)
    → has_label (add_labels ls ks) l ≡ (has_label ls l || has_label ks l)
unfolding add_labels any
has_label-add_labels ls [] l = ground arith
has_label-add_labels ls (k ∷ ks) l =
    ground (arith, has_label-add_labels (add_label ls k) ks l, has_label-add_label ls k l)

has_label-if :
    {F : Type 0} (b : Bool) (ls ks : List Bytes) (l : Bytes) (x y : F)
    → let r : F × List Bytes = if b then (x, add_labels ls ks) else (y, ls) in
      has_label r.1 l ≡ (has_label ls l || has_label (if b then ks else []) l)
unfolding any
has_label-if true ls ks l x y = has_label-add_labels ls ks l
has_label-if false ls ks l x y = ground arith

-- A label of a match was added with it or before.
still_kept :
    (a l0 l1 l2 c k m : Bool)
    → (m ≡ true → l0 ≡ true)
    → l1 ≡ (l0 || c)
    → (l2 ≡ l1) ⊎ (l2 ≡ (l1 || k))
    → (m || a) ≡ true
    → (l2 || a) ≡ true
still_kept a l0 l1 l2 c k m h q r e = ground arith

-- A label is known from before, or is one of those that are added.
still_known :
    (a l0 l1 l2 c k m all : Bool)
    → (l0 ≡ true → (m || all) ≡ true)
    → ((c || k) ≡ true → all ≡ true)
    → l1 ≡ (l0 || c)
    → (l2 ≡ l1) ⊎ (l2 ≡ (l1 || k))
    → (l2 || a) ≡ true
    → ((m || a) || all) ≡ true
still_known a l0 l1 l2 c k m all h b q r e = ground arith

or_last : (b c : Bool) → c ≡ true → (b || c) ≡ true
or_last true c h = refl
or_last false c h = h

or_first : (b c : Bool) → b ≡ true → (b || c) ≡ true
or_first true c h = refl
or_first false c h = absurd (cc)

module _ {F : Type 0} ⦃fl : Float64 F⦄ (pl : Platform F) where
  -- The rule's action, in one of these matches, has the label.
  unfoldable pub match_label : Bytes → List (MatchResult F) → Bool
  match_label l ms = any (λ m. has_label m.labels l) ms

  -- The labels that a verdict of the model adds.
  abbrev pub confirm_labels :
      Option (MlPredictor F) → ParsedRequest → Option (MlConfirm F) → List Bytes
  confirm_labels ml req none = []
  confirm_labels ml req (some cfg) = if cfg.enabled then (run_ml_confirm pl ml cfg req).1 else []

  -- The labels that a counter over its threshold adds.
  abbrev pub track_labels : Option (TrackCfg F) → List Bytes
  track_labels none = []
  track_labels (some t) = if t.enabled then t.on_threshold_labels else []

  -- The rule can add the label besides those of its action.
  unfoldable pub bonus : Option (MlPredictor F) → ParsedRequest → Bytes → Rule F → Bool
  bonus ml req l rule =
      has_label (confirm_labels ml req rule.action.ml_confirm) l
      || has_label (track_labels rule.action.track) l

  -- The labels are those of the actions of the rules that matched, with those that a verdict of the
  -- model or a counter of some rule adds.
  pub record IsLabelled (ml : Option (MlPredictor F)) (req : ParsedRequest) (rules : List (Rule F))
      (ms : List (MatchResult F)) (labels : List Bytes) : Type 0 where
    pub kept : (l : Bytes) → match_label l ms ≡ true → has_label labels l ≡ true
    pub known :
        (l : Bytes)
        → has_label labels l ≡ true
        → (match_label l ms || any (bonus ml req l) rules) ≡ true

  has_label-confirm_step :
      (ml : Option (MlPredictor F)) (c : Option (MlConfirm F)) (req : ParsedRequest) (score : F)
      (labels : List Bytes) (l : Bytes)
      → has_label (confirm_step pl ml c req (score, labels)).1 l
        ≡ (has_label labels l || has_label (confirm_labels ml req c) l)
  unfolding confirm_step any
  has_label-confirm_step ml none req score labels l = ground arith
  has_label-confirm_step ml (some cfg) req score labels l =
      let r = run_ml_confirm pl ml cfg req in
      has_label-if cfg.enabled labels r.1 l (fl.fadd score r.0) score

  -- A counter keeps the labels, and adds none but its own.
  has_label-track_step :
      (c : Option (TrackCfg F)) (req : ParsedRequest) (now : ℕ) (score : F) (labels : List Bytes)
      (tr : Tracker) (l : Bytes)
      → let new = (track_step pl c req now (score, labels) tr).2 in
        (has_label new l ≡ has_label labels l)
        ⊎ (has_label new l ≡ (has_label labels l || has_label (track_labels c) l))
  unfolding track_step
  has_label-track_step none req now score labels tr l = inl refl
  has_label-track_step (some t) req now score labels tr l =
      let key = track_key (bytes t.scope) t.counter (resolve_identity t.scope req) in
      let r = incr tr now key (int64 (t.ttl_minutes *ℤ pos 60000000000)) in
      elim (Bool-cases t.enabled) [
        | inr n ↦ inl (rw n refl)
        | inl y ↦ elim (Bool-cases (leb_ℤ t.threshold (pos r.1))) [
          | inl h ↦ inr (rw (y, h) (has_label-add_labels labels t.on_threshold_labels l))
          | inr h ↦ inl (rw (y, h) refl)
        ]
      ]

  match_label-append :
      (l : Bytes) (ms : List (MatchResult F)) (m : MatchResult F)
      → match_label l (ms ++ (m ∷ [])) ≡ (match_label l ms || has_label m.labels l)
  unfolding match_label any
  match_label-append l ms m = any-append (λ m. has_label m.labels l) ms (m ∷ []) ∙ ground arith

  module _ (re : RuleEngine F) (req : ParsedRequest) (now : ℕ) (rules : List (Rule F)) where
    -- The rule is one of the rules, as far as its labels go.
    abbrev Among : List (Rule F) → Type 0
    Among rs =
        (l : Bytes)
        → any (bonus re.ml_pred req l) rs ≡ true
        → any (bonus re.ml_pred req l) rules ≡ true

    abbrev Fits : Progress F → Type 0
    Fits p = IsLabelled re.ml_pred req rules p.result.matched_rules p.result.labels

    apply_hit-IsLabelled :
        (rule : Rule F) (rest : List (Rule F)) (d : Detection) (p : Progress F)
        → Among (rule ∷ rest)
        → Fits p
        → Fits (apply_hit pl re req now rule d p)
    unfolding apply_hit any bonus
    apply_hit-IsLabelled rule rest d p a h =
        let base = fl.fmul rule.action.score rule.compiled.sev_mul in
        let s = confirm_step pl re.ml_pred rule.action.ml_confirm req (base, p.result.labels) in
        let t = track_step pl rule.action.track req now s p.tracker in
        record {
          kept = λ l e.
              has_label-add_labels t.2 rule.action.labels l
              ∙ still_kept _ _ _ _ _ _ _ (h.kept l)
                  (has_label-confirm_step re.ml_pred rule.action.ml_confirm req base p.result.labels
                    l)
                  (has_label-track_step rule.action.track req now s.0 s.1 p.tracker l)
                  (sym (match_label-append l p.result.matched_rules _) ∙ e);
          known = λ l e.
              ap (λ b. b || any (bonus re.ml_pred req l) rules)
                (match_label-append l p.result.matched_rules _)
              ∙ still_known _ _ _ _ _ _ _ _ (h.known l) (λ b. a l (or_first _ _ b))
                  (has_label-confirm_step re.ml_pred rule.action.ml_confirm req base p.result.labels
                    l)
                  (has_label-track_step rule.action.track req now s.0 s.1 p.tracker l)
                  (sym (has_label-add_labels t.2 rule.action.labels l) ∙ e);
        }

    rule_step-IsLabelled :
        (trim : Bytes → Bytes) (rule : Rule F) (rest : List (Rule F)) (p : Progress F)
        → Among (rule ∷ rest)
        → Fits p
        → Fits (rule_step pl trim re req now rule p)
    unfolding rule_step apply_hit
    rule_step-IsLabelled trim rule rest p a h = elim (Bool-cases rule.enabled) [
      | inr n ↦ rw n h
      | inl y ↦ elim (Bool-cases (matches_when pl rule req p.result.total_score p.result.labels)) [
        | inr n ↦ rw (n, y) h
        | inl w ↦ elim (Bool-cases (matches_except pl rule req p.result.labels)) [
          | inl e ↦ rw (e, w, y) h
          | inr e ↦ elim (Option-cases (evaluate_detect pl trim rule req)) [
            | inl d ↦ rw (d, e, w, y) h
            | inr (d, s) ↦ rw (s, e, w, y) (apply_hit-IsLabelled rule rest d p a h)
          ]
        ]
      ]
    ]

    rules_loop-IsLabelled :
        (trim : Bytes → Bytes) (rs : List (Rule F)) (p : Progress F)
        → Among rs
        → Fits p
        → Fits (rules_loop pl trim re req now rs p)
    unfolding rules_loop any
    rules_loop-IsLabelled trim [] p a h = h
    rules_loop-IsLabelled trim (r ∷ rs) p a h =
        rules_loop-IsLabelled trim rs (rule_step pl trim re req now r p)
          (λ l e. a l (or_last (bonus re.ml_pred req l r) _ e))
          (rule_step-IsLabelled trim r rs p a h)

  pub evaluate-IsLabelled :
      (trim : Bytes → Bytes) (re : RuleEngine F) (now : ℕ) (req : ParsedRequest)
      → let r = evaluate pl trim re now req in
        IsLabelled re.ml_pred req re.rules r.1.matched_rules r.1.labels
  unfolding evaluate any match_label
  evaluate-IsLabelled trim re now req =
      let start : Progress F = record {
        result = empty_result pl;
        tracker = re.tracker;
        metrics = re.metrics;
      } in
      let h =
        rules_loop-IsLabelled re req now re.rules trim re.rules start (λ l e. e)
          (record { kept = λ l e. e; known = λ l e. absurd (cc) }) in
      record { kept = h.kept; known = h.known }
