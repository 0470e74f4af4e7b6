-- ===== src/Engine/Reload.antt =====
-- What loading and reloading of internal/engine/rule_engine.go make of the rules' counters.
use custom_waf.Engine.Tracker.{Tracker}
use custom_waf.Engine.Evaluate.{RuleEngine, track_step}
use custom_waf.Engine.Platform.{Platform}
use custom_waf.Base.{
  ◌≡◌, true, false, Option, none, some, [], arith, pos, Bytes, Bytes_eq, String_eq, ℕ_eq, bytes_beq,
  ℕ, refl, ◌⊎◌, inl, inr, List, ◌∷◌, ◌++◌, map, Option-cases, Float64,
}
use custom_waf.Base.{leb_ℤ, All}
use custom_waf.Engine.Types.{TrackCfg, Rule, ParsedRequest}
use mathlib.Core.Path.{subst}
use custom_waf.Engine.Selector.{key_of}
use custom_waf.Engine.Load.{
  add_rule, add_rules, reload_rules, compile_rule, install, load_rules_from_json,
}
use custom_waf.Engine.Validate.{
  ◌>>=◌, validate_ml, validate_shape, Result, ok, err, default_track, validate_track, validate_body,
  validate_rule, validate_rules_json, LoadError,
}

-- What a result holds, if it holds anything.
abbrev pub Holds {ℓ} : {A : Type ℓ} → (A → Type 0) → Result A → Type 0
Holds P (ok a) = P a
Holds P (err e) = Unit

Holds-bind :
    {A B : Type 0} (Q : A → Type 0) (P : B → Type 0) (m : Result A) (f : A → Result B)
    → Holds Q m
    → ((a : A) → Q a → Holds P (f a))
    → Holds P (m >>= f)
Holds-bind Q P (ok a) f h g = g a h
Holds-bind Q P (err e) f h g = tt

Holds-any : {A : Type 0} (m : Result A) → Holds (λ a. Unit {0}) m
Holds-any (ok a) = tt
Holds-any (err e) = tt

Result-cases :
    {A : Type 0} (r : Result A) → ((e : LoadError) × (r ≡ err e)) ⊎ ((a : A) × (r ≡ ok a))
Result-cases (ok a) = inr (a, refl)
Result-cases (err e) = inl (e, refl)

module _ {F : Type 0} where
  -- An enabled counter has a positive threshold, a positive lifetime and a name.
  abbrev pub Ready : Option (TrackCfg F) → Type 0
  Ready none = Unit
  Ready (some t) =
      t.enabled ≡ true
      → (leb_ℤ t.threshold (pos 0) ≡ false)
        × (leb_ℤ t.ttl_minutes (pos 0) ≡ false)
        × (bytes_beq t.counter [] ≡ false)

  default_track-Ready :
      (id : Bytes) (t : TrackCfg F) → bytes_beq id [] ≡ false → Ready (some (default_track id t))
  unfolding default_track
  default_track-Ready id t h = λ e. (ground arith, ground arith, ground arith)

  validate_track-Ready :
      (id : Bytes) (t : Option (TrackCfg F))
      → bytes_beq id [] ≡ false
      → Holds Ready (validate_track id t)
  unfolding validate_track
  validate_track-Ready id none h = tt
  validate_track-Ready id (some t) h = ground (arith, default_track-Ready id t h)

module _ {F : Type 0} ⦃fl : Float64 F⦄ where
  validate_body-Ready :
      (r : Rule F)
      → bytes_beq r.id [] ≡ false
      → Holds (λ r'. Ready r'.action.track) (validate_body r)
  unfolding validate_body
  validate_body-Ready r h =
      Holds-bind (λ u. Unit) (λ r'. Ready r'.action.track) (validate_shape r) _ (Holds-any _)
        (λ u shape.
          Holds-bind Ready _ (validate_track r.id r.action.track) _
            (validate_track-Ready r.id r.action.track h)
            (λ track ready.
              Holds-bind (λ m. Unit) _ (validate_ml r.action.ml_confirm) _ (Holds-any _)
                (λ ml u. ready)))

  validate_rule-Ready :
      (r : Rule F) (seen : List Bytes)
      → Holds (λ r'. Ready r'.action.track) (validate_rule r seen).1
  unfolding validate_rule
  validate_rule-Ready r seen = ground (arith, validate_body-Ready r)

  module _ (trim : Bytes → Bytes) (pl : Platform F) where
    abbrev pub AllReady : List (Rule F) → Type 0
    AllReady rules = All (λ r. Ready r.action.track) rules

    All-append :
        (rules : List (Rule F)) (r : Rule F)
        → AllReady rules
        → Ready r.action.track
        → AllReady (rules ++ (r ∷ []))
    All-append [] r a h = (h, tt)
    All-append (x ∷ rules) r a h = (a.0, All-append rules r a.1 h)

    add_rule-Ready :
        (re : RuleEngine F) (r : Rule F)
        → AllReady re.rules
        → AllReady (add_rule trim pl re r).0.rules
    unfolding add_rule compile_rule
    add_rule-Ready re r a =
        let h = validate_rule-Ready r (map key_of re.rule_cache) in
        elim (Result-cases (validate_rule r (map key_of re.rule_cache)).1) [
          | inl (e, s) ↦ rw (add_rule, s) a
          | inr (r', s) ↦
              rw (add_rule, s)
                (All-append re.rules (compile_rule trim pl r') a
                  (subst (Holds (λ r'. Ready r'.action.track)) s h))
        ]

    add_rules-Ready :
        (re : RuleEngine F) (rules : List (Rule F))
        → AllReady re.rules
        → AllReady (add_rules trim pl re rules).0.rules
    unfolding add_rules
    add_rules-Ready re [] a = a
    add_rules-Ready re (r ∷ rules) a =
        let b = add_rule-Ready re r a in
        elim (Option-cases (add_rule trim pl re r).1) [
          | inl n ↦ rw (add_rules, n) (add_rules-Ready (add_rule trim pl re r).0 rules b)
          | inr (e, s) ↦ rw (add_rules, s) b
        ]

    -- Whatever is loaded, and whether or not a rule is refused: if the enabled counters of the rules
    -- in force have a positive threshold, a positive lifetime and a name, those of all rules after
    -- the load do.
    pub load-AllReady :
        (re : RuleEngine F) (parsed : Option (List (Rule F)))
        → AllReady re.rules
        → AllReady (load_rules_from_json trim pl re parsed).0.rules
    unfolding load_rules_from_json
    load-AllReady re none a = a
    load-AllReady re (some rules) a = add_rules-Ready re rules a

    reload_raw :
        (re : RuleEngine F) (rules : List (Rule F))
        → (reload_rules trim pl re (some rules)).1 ≡ none
        → (reload_rules trim pl re (some rules)).0.rules ≡ map (compile_rule trim pl) rules
    unfolding reload_rules install
    reload_raw re rules h = elim (Option-cases (validate_rules_json (some rules)).1) [
      | inl n ↦ rw (reload_rules, n) refl
      | inr (x, s) ↦ ground arith
    ]

    trips :
        (t : TrackCfg F) (req : ParsedRequest) (now : ℕ) (score : F) (labels : List Bytes)
        (tr : Tracker)
        → t.enabled ≡ true
        → leb_ℤ t.threshold (pos 0) ≡ true
        → (track_step pl (some t) req now (score, labels) tr).0 ≡ true
    unfolding track_step
    trips t req now score labels tr h l = ground arith

    -- A reload drops the defaults: after a reload that succeeds, of one rule whose counter is
    -- enabled and has no positive threshold, the counter is over its threshold at every match, the
    -- first one included.
    pub reload_trips :
        (re : RuleEngine F) (r : Rule F) (t : TrackCfg F)
        → (reload_rules trim pl re (some (r ∷ []))).1 ≡ none
        → r.action.track ≡ some t
        → t.enabled ≡ true
        → leb_ℤ t.threshold (pos 0) ≡ true
        → (req : ParsedRequest) (now : ℕ) (score : F) (labels : List Bytes) (tr : Tracker)
        → All
            (λ r'. (track_step pl r'.action.track req now (score, labels) tr).0 ≡ true)
            (reload_rules trim pl re (some (r ∷ []))).0.rules
    unfolding compile_rule
    reload_trips re r t h e on low req now score labels tr =
        rw (reload_raw re (r ∷ []) h, e) (trips t req now score labels tr on low, tt)
