-- ===== src/Engine/Tally.antt =====
-- What one evaluation of internal/engine/rule_engine.go adds up, over all the rules.
use custom_waf.Engine.Labelled.{IsLabelled, evaluate-IsLabelled}
use custom_waf.Engine.Labels.{Once, add_labels-Once}
use custom_waf.Base.{
  ℕ, suc, ◌+◌, ◌≡◌, refl, sym, ap, ◌∙◌, inl, inr, Option, none, some, List, [], ◌∷◌, ◌++◌, arith,
  pos, Bytes, Bytes_eq, String_eq, ℕ_eq, bytes, bytes_beq, bytes_beq_iff, if◌then◌else◌, Bool-cases,
  Option-cases, lookup, insert, Float64, lookup-insert,
}
use custom_waf.Base.{leb_ℤ, ◌*ℤ◌, int64}
use custom_waf.Engine.Types.{MlConfirm, TrackCfg, Rule, ParsedRequest, MatchResult}
use custom_waf.Engine.Platform.{Platform}
use custom_waf.Engine.Tracker.{Tracker, track_key, resolve_identity, incr}
use custom_waf.Engine.Filter.{matches_when, matches_except}
use custom_waf.Engine.Detect.{Detection, evaluate_detect}
use custom_waf.Engine.Evaluate.{
  RuleEngine, Progress, or_zero, or_lit0, count_up, update_metrics, apply_hit, rule_step,
  rules_loop, evaluate, track_step, confirm_step, empty_result, count_evaluation,
}
use custom_waf.Engine.MlHook.{MlPredictor}

module _ {F : Type 0} ⦃fl : Float64 F⦄ where
  -- The scores of the matches of one category, added up in the order of the rules.
  unfoldable pub category_sum : Bytes → F → List (MatchResult F) → F
  category_sum c z [] = z
  category_sum c z (m ∷ ms) =
      category_sum c (if bytes_beq m.category c then fl.fadd z m.score else z) ms

  unfoldable pub score_sum : F → List (MatchResult F) → F
  score_sum z [] = z
  score_sum z (m ∷ ms) = score_sum (fl.fadd z m.score) ms

  -- The matches of one rule.
  unfoldable pub hits : Bytes → List (MatchResult F) → ℕ
  hits id [] = 0
  hits id (m ∷ ms) = let rest = hits id ms in if bytes_beq m.rule_id id then suc rest else rest

  category_sum-append :
      (c : Bytes) (z : F) (ms : List (MatchResult F)) (m : MatchResult F)
      → category_sum c z (ms ++ (m ∷ []))
        ≡ (let s = category_sum c z ms in if bytes_beq m.category c then fl.fadd s m.score else s)
  unfolding category_sum
  category_sum-append c z [] m = refl
  category_sum-append c z (n ∷ ms) m =
      category_sum-append c (if bytes_beq n.category c then fl.fadd z n.score else z) ms m

  score_sum-append :
      (z : F) (ms : List (MatchResult F)) (m : MatchResult F)
      → score_sum z (ms ++ (m ∷ [])) ≡ fl.fadd (score_sum z ms) m.score
  unfolding score_sum
  score_sum-append z [] m = refl
  score_sum-append z (n ∷ ms) m = score_sum-append (fl.fadd z n.score) ms m

  hits-append :
      (id : Bytes) (ms : List (MatchResult F)) (m : MatchResult F)
      → hits id (ms ++ (m ∷ [])) ≡ (if bytes_beq m.rule_id id then suc (hits id ms) else hits id ms)
  unfolding hits
  hits-append id [] m = ground arith
  hits-append id (n ∷ ms) m = ground (arith, hits-append id ms m)

  module _ (pl : Platform F) where
    -- The result of an evaluation agrees with its list of matches, and the counts per rule have
    -- grown from `old` by as much.
    pub record IsTallied (old : List (Bytes × ℕ)) (p : Progress F) : Type 0 where
      pub total : p.result.total_score ≡ score_sum (fl.lit 0 0) p.result.matched_rules
      pub buckets :
          (c : Bytes)
          → or_lit0 pl (lookup c p.result.bucket_scores)
            ≡ category_sum c (fl.lit 0 0) p.result.matched_rules
      pub counts :
          (id : Bytes)
          → or_zero (lookup id p.metrics.rule_hit_count)
            ≡ or_zero (lookup id old) + hits id p.result.matched_rules
      pub once : Once p.result.labels

    confirm_step-Once :
        (ml : Option (MlPredictor F)) (c : Option (MlConfirm F)) (req : ParsedRequest) (score : F)
        (labels : List Bytes)
        → Once labels
        → Once (confirm_step pl ml c req (score, labels)).1
    unfolding confirm_step
    confirm_step-Once ml none req score labels o = o
    confirm_step-Once ml (some cfg) req score labels o = elim (Bool-cases cfg.enabled) [
      | inl y ↦ rw y (add_labels-Once labels _ o)
      | inr n ↦ rw n o
    ]

    track_step-Once :
        (c : Option (TrackCfg F)) (req : ParsedRequest) (now : ℕ) (score : F) (labels : List Bytes)
        (tr : Tracker)
        → Once labels
        → Once (track_step pl c req now (score, labels) tr).2
    unfolding track_step
    track_step-Once none req now score labels tr o = o
    track_step-Once (some t) req now score labels tr o =
        let key = track_key (bytes t.scope) t.counter (resolve_identity t.scope req) in
        let r = incr tr now key (int64 (t.ttl_minutes *ℤ pos 60000000000)) in
        elim (Bool-cases t.enabled) [
          | inr n ↦ rw n o
          | inl y ↦ elim (Bool-cases (leb_ℤ t.threshold (pos r.1))) [
            | inl l ↦ rw (y, l) (add_labels-Once labels t.on_threshold_labels o)
            | inr l ↦ rw (y, l) o
          ]
        ]

    bucket_step :
        (c : Bytes) (z : F) (m : List (Bytes × F)) (ms : List (MatchResult F)) (r : MatchResult F)
        → ((k : Bytes) → or_lit0 pl (lookup k m) ≡ category_sum k z ms)
        → or_lit0 pl
            (lookup c (insert r.category (fl.fadd (or_lit0 pl (lookup r.category m)) r.score) m))
          ≡ category_sum c z (ms ++ (r ∷ []))
    bucket_step c z m ms r h = elim (Bool-cases (bytes_beq r.category c)) [
      | inl y ↦
          rw
            (
              lookup-insert r.category c (fl.fadd (or_lit0 pl (lookup r.category m)) r.score) m,
              category_sum-append c z ms r,
              y,
            )
            (ap (λ x. fl.fadd x r.score)
              (h r.category ∙ ap (λ k. category_sum k z ms) ((bytes_beq_iff r.category c).0 y)))
      | inr n ↦
          rw
            (
              lookup-insert r.category c (fl.fadd (or_lit0 pl (lookup r.category m)) r.score) m,
              category_sum-append c z ms r,
              n,
            )
            (h c)
    ]

    count_step :
        (id : Bytes) (old m : List (Bytes × ℕ)) (ms : List (MatchResult F)) (r : MatchResult F)
        → ((k : Bytes) → or_zero (lookup k m) ≡ or_zero (lookup k old) + hits k ms)
        → or_zero (lookup id (count_up r.rule_id m))
          ≡ or_zero (lookup id old) + hits id (ms ++ (r ∷ []))
    unfolding count_up
    count_step id old m ms r h = elim (Bool-cases (bytes_beq r.rule_id id)) [
      | inl y ↦
          rw
            (
              lookup-insert r.rule_id id (suc (or_zero (lookup r.rule_id m))) m,
              hits-append id ms r,
              y,
            )
            (let e : r.rule_id ≡ id = (bytes_beq_iff r.rule_id id).0 y in
              rw e (omega (arith, h id)))
      | inr n ↦
          rw
            (
              lookup-insert r.rule_id id (suc (or_zero (lookup r.rule_id m))) m,
              hits-append id ms r,
              n,
            )
            (h id)
    ]

    apply_hit-IsTallied :
        (re : RuleEngine F) (req : ParsedRequest) (now : ℕ) (rule : Rule F) (d : Detection)
        (old : List (Bytes × ℕ)) (p : Progress F)
        → IsTallied old p
        → IsTallied old (apply_hit pl re req now rule d p)
    unfolding apply_hit update_metrics count_up
    apply_hit-IsTallied re req now rule d old p h =
        let base = fl.fmul rule.action.score rule.compiled.sev_mul in
        let s = confirm_step pl re.ml_pred rule.action.ml_confirm req (base, p.result.labels) in
        let t = track_step pl rule.action.track req now s p.tracker in
        record {
          total = rw h.total (sym (score_sum-append _ p.result.matched_rules _));
          buckets = λ c.
              bucket_step c (fl.lit 0 0) p.result.bucket_scores p.result.matched_rules _ h.buckets;
          counts =
              λ id. count_step id old p.metrics.rule_hit_count p.result.matched_rules _ h.counts;
          once = add_labels-Once t.2 rule.action.labels (
              track_step-Once rule.action.track req now s.0 s.1 p.tracker (
                confirm_step-Once re.ml_pred rule.action.ml_confirm req base p.result.labels
                  h.once));
        }

    rule_step-IsTallied :
        (trim : Bytes → Bytes) (re : RuleEngine F) (req : ParsedRequest) (now : ℕ) (rule : Rule F)
        (old : List (Bytes × ℕ)) (p : Progress F)
        → IsTallied old p
        → IsTallied old (rule_step pl trim re req now rule p)
    unfolding rule_step apply_hit
    rule_step-IsTallied trim re req now rule old p h = elim (Bool-cases rule.enabled) [
      | inr n ↦ rw n h
      | inl y ↦ elim (Bool-cases (matches_when pl rule req p.result.total_score p.result.labels)) [
        | inr n ↦ rw (n, y) h
        | inl w ↦ elim (Bool-cases (matches_except pl rule req p.result.labels)) [
          | inl e ↦ rw (e, w, y) h
          | inr e ↦ elim (Option-cases (evaluate_detect pl trim rule req)) [
            | inl d ↦ rw (d, e, w, y) h
            | inr (d, s) ↦ rw (s, e, w, y) (apply_hit-IsTallied re req now rule d old p h)
          ]
        ]
      ]
    ]

    rules_loop-IsTallied :
        (trim : Bytes → Bytes) (re : RuleEngine F) (req : ParsedRequest) (now : ℕ)
        (rules : List (Rule F)) (old : List (Bytes × ℕ)) (p : Progress F)
        → IsTallied old p
        → IsTallied old (rules_loop pl trim re req now rules p)
    unfolding rules_loop
    rules_loop-IsTallied trim re req now [] old p h = h
    rules_loop-IsTallied trim re req now (r ∷ rules) old p h =
        rules_loop-IsTallied trim re req now rules old (rule_step pl trim re req now r p)
          (rule_step-IsTallied trim re req now r old p h)

    -- After any evaluation the total score is the sum of the scores of the matches, the score of a
    -- category is the sum of those of its matches, and the count of each rule has grown by its
    -- matches. The labels hold each label of a match and no label twice; a label that no match has is
    -- one that a verdict of the model or an enabled counter of some rule adds.
    pub evaluate-IsTallied :
        (trim : Bytes → Bytes) (re : RuleEngine F) (now : ℕ) (req : ParsedRequest)
        → let r = evaluate pl trim re now req in
          IsTallied re.metrics.rule_hit_count
            (record { result = r.1; tracker = r.0.tracker; metrics = r.0.metrics })
          × IsLabelled pl re.ml_pred req re.rules r.1.matched_rules r.1.labels
    unfolding evaluate count_evaluation score_sum category_sum hits lookup
    evaluate-IsTallied trim re now req =
        let start : Progress F = record {
          result = empty_result pl;
          tracker = re.tracker;
          metrics = re.metrics;
        } in
        let h =
          rules_loop-IsTallied trim re req now re.rules re.metrics.rule_hit_count start
            (record { total = refl; buckets = λ c. refl; counts = λ id. omega arith; once = tt }) in
        (
          record { total = h.total; buckets = h.buckets; counts = h.counts; once = h.once },
          evaluate-IsLabelled pl trim re now req,
        )
