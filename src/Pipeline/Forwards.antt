-- ===== src/Pipeline/Forwards.antt =====
-- What the handler of internal/middleware/waf.go sends on, and what a promoted ban writes.

use custom_waf.Decision.Verdict.{decide_with_details}
use custom_waf.Pipeline.Inference.{run_ml_inference}
use custom_waf.Engine.Evaluate.{evaluate}
use custom_waf.Pipeline.Serve.{
  record_effects, inspect_request, promoted, if_alert, analyze_behavior,
}
use custom_waf.Request.Types.{FullRequest, HttpRequest}
use custom_waf.Base.{
  pos-sub, pos_part, ℕ, zero, suc, ◌+◌, ◌-◌, ◌<◌, ◌≡◌, refl, ap, ◌∙◌, inl, inr, Bool, true, false,
  ◌||◌, List, [], ◌∷◌, ◌++◌, arith, ℤ, pos, negsuc, Bytes, Bytes_eq, String_eq, ℕ_eq, Bool-cases,
  not, ◌&&◌, some, ◌==◌, Float64,
}
use custom_waf.Base.{pos-sub, pos_part, any, leb_ℤ, is_zero, ◌-ℤ◌, lookup-insert}
use custom_waf.Engine.Types.{MatchResult, EvaluationResult}
use custom_waf.Decision.Types.{DecisionEngine, BehaviorResult, DecisionResult}
use custom_waf.Decision.Lists.{is_blacklisted, add_blacklist_ip_with_ttl, expiry, entry_active}
use custom_waf.Pipeline.Types.{Effect, Outside, Waf, MlVerdictRecord}
use custom_waf.Pipeline.Answers.{
  promote_ban_to_blacklist, count_rules, count_threats, block_request, dispatch_alert, execute,
}

-- The effect sends the request to the upstream.
abbrev pub forwards : {F : Type 0} → Effect F → Bool
forwards (Effect.forward url http) = true
forwards _ = false

any-append :
    {A : Type 0} (p : A → Bool) (xs ys : List A) → any p (xs ++ ys) ≡ (any p xs || any p ys)
unfolding any
any-append p [] ys = refl
any-append p (x ∷ xs) ys = ground (arith, any-append p xs ys)

expiry_after : (now n : ℕ) → 0 < n → expiry now (pos n) ≡ now + n
unfolding expiry
expiry_after now zero h = absurd (omega (arith, h))
expiry_after now (suc n) h = refl

-- A promotion writes an entry that is active, until the end of the ban.
pub promoted_entry :
    (now : ℕ) (until : ℤ)
    → is_zero until ≡ false
    → leb_ℤ until (pos now) ≡ false
    → (expiry now (until -ℤ pos now) ≡ pos_part until) × (now < pos_part until)
promoted_entry now (pos u) z l =
    let later : now < u = ground arith in
    let e : pos u -ℤ pos now ≡ pos (u - now) = pos-sub u now (omega (arith, later)) in
    (
      ap (expiry now) e ∙ expiry_after now (u - now) (omega (arith, later)) ∙ omega (arith, later),
      later,
    )
promoted_entry now (negsuc u) z l = absurd (ground arith)

module _ {F : Type 0} where
  count_rules-forwards : (ms : List (MatchResult F)) → any forwards (count_rules ms) ≡ false
  unfolding any count_rules
  count_rules-forwards [] = refl
  count_rules-forwards (m ∷ ms) = count_rules-forwards ms

  -- A promotion takes no address off the deny list.
  pub promote-kept :
      (de : DecisionEngine F) (br : BehaviorResult F) (now : ℕ) (ip : Bytes)
      → is_blacklisted de now ip ≡ true
      → is_blacklisted (promote_ban_to_blacklist de br now) now ip ≡ true
  unfolding promote_ban_to_blacklist is_blacklisted add_blacklist_ip_with_ttl entry_active
  promote-kept de br now ip h =
      elim (Bool-cases (is_zero br.blocked_until || leb_ℤ br.blocked_until (pos now))) [
        | inl y ↦ ground arith
        | inr n ↦
            let e = promoted_entry now br.blocked_until (ground arith) (ground arith) in
            let l =
              lookup-insert br.client_ip ip (expiry now (br.blocked_until -ℤ pos now))
                de.blacklist_ips in
            ground (arith, e, l)
      ]

count_threats-forwards :
    (F : Type 0) (ts : List Bytes) → any (forwards {F = F}) (count_threats ts) ≡ false
unfolding any count_threats
count_threats-forwards F [] = refl
count_threats-forwards F (t ∷ ts) = count_threats-forwards F ts

module _ {F : Type 0} ⦃fl : Float64 F⦄ (out : Outside F) where
  pub block_request-forwards :
      (req : FullRequest) (reason : Bytes) (status : ℕ)
      → any forwards (block_request out req reason status) ≡ false
  unfolding any block_request
  block_request-forwards req reason status = refl

  if_alert-forwards :
      (b : Bool) (http : HttpRequest) (req : FullRequest) (ev : EvaluationResult F)
      (d : DecisionResult F)
      → any forwards (if_alert out b (dispatch_alert out http req ev d)) ≡ false
  unfolding any dispatch_alert
  if_alert-forwards true http req ev d = refl
  if_alert-forwards false http req ev d = refl

  -- What is counted and logged is not sent to the upstream.
  record_effects-forwards :
      (w : Waf F) (http : HttpRequest) (req : FullRequest) (ev : EvaluationResult F)
      (d : DecisionResult F) (b : BehaviorResult F) (v : MlVerdictRecord F)
      → any forwards (record_effects out w http req ev d b v) ≡ false
  unfolding any record_effects
  record_effects-forwards w http req ev d b v =
      let wants = w.has_notifier && (not w.settings.dry_run && d.decision == "BLOCK") in
      let rules = count_rules ev.matched_rules in
      let threats = count_threats b.threat_types in
      any-append forwards rules _
      ∙ rw (count_rules-forwards ev.matched_rules) (
          any-append forwards threats _
          ∙ rw (count_threats-forwards F b.threat_types) (if_alert-forwards wants http req ev d))

  -- The handler's effects are those of the record and those of the decision.
  pub inspect-forwards :
      (trim : Bytes → Bytes) (w : Waf F) (now : ℕ) (http : HttpRequest) (req : FullRequest)
      → let e = evaluate out.platform trim w.rules now req.parsed in
        let m = run_ml_inference out w.settings w.client now req e.1 in
        let b = analyze_behavior out w.detector now req m.1 in
        let d = decide_with_details (promoted out w b.1 now) now m.1 req.parsed (some b.1) in
        any forwards (inspect_request out trim w now http req).1
        ≡ any forwards (execute out w http req m.1 d.1)
  unfolding inspect_request
  inspect-forwards trim w now http req =
      let e = evaluate out.platform trim w.rules now req.parsed in
      let m = run_ml_inference out w.settings w.client now req e.1 in
      let b = analyze_behavior out w.detector now req m.1 in
      let d = decide_with_details (promoted out w b.1 now) now m.1 req.parsed (some b.1) in
      any-append forwards (record_effects out w http req m.1 d.1 b.1 m.2) _
      ∙ rw (record_effects-forwards w http req m.1 d.1 b.1 m.2) refl
