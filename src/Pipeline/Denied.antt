-- ===== src/Pipeline/Denied.antt =====
-- What the handler of internal/middleware/waf.go does with a denied address.
use custom_waf.Request.Normalizer.{normalize}
use custom_waf.Request.Parser.{parse, parse_head, HttpParser, extract_client_ip}
use custom_waf.Decision.Bypass.{should_bypass_waf, bypass_reason}
use custom_waf.Decision.Outcome.{decision-verdict}
use custom_waf.Decision.Verdict.{decide_with_details}
use custom_waf.Pipeline.Inference.{run_ml_inference}
use custom_waf.Engine.Evaluate.{evaluate}
use custom_waf.Pipeline.Serve.{
  inspect_request, promoted, analyze_behavior, serve_parsed, limit_request, serve_http, serve_next,
}
use custom_waf.Request.Types.{FullRequest, HttpRequest}
use mathlib.Core.Path.{subst}
use custom_waf.Base.{
  ℕ, ◌≡◌, refl, ap, ◌∙◌, inl, inr, true, false, arith, Bytes, Bytes_eq, String_eq, ℕ_eq, Bool-cases,
  sym, Option, some, eq_iff, Option-cases, Float64,
}
use custom_waf.Base.{any}
use custom_waf.Engine.Types.{EvaluationResult, ParsedRequest}
use custom_waf.Decision.Types.{DecisionEngine, BehaviorResult, DecisionResult}
use custom_waf.Decision.Lists.{is_blacklisted, add_blacklist_ip_with_ttl, is_whitelisted_ip}
use custom_waf.Pipeline.Types.{Outside, Waf}
use custom_waf.Pipeline.Answers.{
  promote_ban_to_blacklist, block_request, execute, reject_rate_limited,
}
use custom_waf.Pipeline.Forwards.{forwards, block_request-forwards, inspect-forwards, promote-kept}

module _ {F : Type 0} ⦃fl : Float64 F⦄ (out : Outside F) where
  promoted-config :
      (w : Waf F) (br : BehaviorResult F) (now : ℕ)
      → (promoted out w br now).config ≡ w.decisions.config
  unfolding promoted promote_ban_to_blacklist add_blacklist_ip_with_ttl
  promoted-config w br now = ground arith

  promoted-kept :
      (w : Waf F) (br : BehaviorResult F) (now : ℕ) (ip : Bytes)
      → is_blacklisted w.decisions now ip ≡ true
      → is_blacklisted (promoted out w br now) now ip ≡ true
  unfolding promoted
  promoted-kept w br now ip h = elim (Bool-cases w.settings.dry_run) [
    | inl y ↦ ground arith
    | inr n ↦ ground (arith, promote-kept w.decisions br now ip h)
  ]

  denied-decision :
      (de : DecisionEngine F) (now : ℕ) (ev : EvaluationResult F) (req : ParsedRequest)
      (b : Option (BehaviorResult F))
      → de.config.enable_blacklist ≡ true
      → is_blacklisted de now req.client_ip ≡ true
      → (decide_with_details de now ev req b).1.decision ≡ "BLOCK"
  denied-decision de now ev req b on black = decision-verdict de now ev req b ∙ rw (black, on) refl

  execute-blocked :
      (w : Waf F) (http : HttpRequest) (req : FullRequest) (ev : EvaluationResult F)
      (d : DecisionResult F)
      → w.settings.dry_run ≡ false
      → d.decision ≡ "BLOCK"
      → any forwards (execute out w http req ev d) ≡ false
  unfolding execute
  execute-blocked w http req ev d live blocked =
      ground
        (arith, eq_iff d.decision "BLOCK", block_request-forwards out req d.reason d.response_code)

  inspect-blocked :
      (trim : Bytes → Bytes) (w : Waf F) (now : ℕ) (http : HttpRequest) (req : FullRequest)
      → w.settings.dry_run ≡ false
      → w.decisions.config.enable_blacklist ≡ true
      → is_blacklisted w.decisions now req.parsed.client_ip ≡ true
      → any forwards (inspect_request out trim w now http req).1 ≡ false
  inspect-blocked trim w now http req live on h =
      let e = evaluate out.platform trim w.rules now req.parsed in
      let m = run_ml_inference out w.settings w.client now req e.1 in
      let b = analyze_behavior out w.detector now req m.1 in
      let de = promoted out w b.1 now in
      let d = decide_with_details de now m.1 req.parsed (some b.1) in
      let black = promoted-kept w b.1 now req.parsed.client_ip h in
      let on' : de.config.enable_blacklist ≡ true =
        ap (λ c. c.enable_blacklist) (promoted-config w b.1 now) ∙ on in
      inspect-forwards out trim w now http req
      ∙ execute-blocked w http req m.1 d.1 live
          (denied-decision de now m.1 req.parsed (some b.1) on' black)

  denied-passes :
      (de : DecisionEngine F) (now : ℕ) (req : ParsedRequest)
      → de.config.enable_blacklist ≡ true
      → is_blacklisted de now req.client_ip ≡ true
      → should_bypass_waf de now req ≡ false
  unfolding should_bypass_waf bypass_reason
  denied-passes de now req on h =
      let e : bypass_reason de now req ≡ "" = ground (arith, on, h) in rw (bypass_reason, e) refl

  denied-strange :
      (de : DecisionEngine F) (now : ℕ) (req : ParsedRequest)
      → de.config.enable_blacklist ≡ true
      → is_blacklisted de now req.client_ip ≡ true
      → is_whitelisted_ip de now req.client_ip ≡ false
  unfolding is_whitelisted_ip
  denied-strange de now req on h = ground (arith, on, h)

  serve_parsed-blocked :
      (trim : Bytes → Bytes) (w : Waf F) (now : ℕ) (http : HttpRequest) (req : FullRequest)
      → w.settings.dry_run ≡ false
      → w.decisions.config.enable_blacklist ≡ true
      → is_blacklisted w.decisions now req.parsed.client_ip ≡ true
      → any forwards (serve_parsed out trim w now http req).1 ≡ false
  unfolding serve_parsed any reject_rate_limited block_request
  serve_parsed-blocked trim w now http req live on h =
      let pass = denied-passes w.decisions now req.parsed on h in
      let strange = denied-strange w.decisions now req.parsed on h in
      elim (Bool-cases (limit_request out w.limiter now req).1) [
        | inl y ↦ rw (serve_parsed, pass, strange, y) refl
        | inr n ↦
            let w' = record w { limiter = (limit_request out w.limiter now req).0 } in
            rw (serve_parsed, pass, strange, n) (inspect-blocked trim w' now http req live on h)
      ]

  -- Parsing gives the address that the headers name.
  parse-client_ip :
      (trim : Bytes → Bytes) (p : HttpParser) (request_id : Bytes) (now : ℕ)
      (http http' : HttpRequest) (req : FullRequest)
      → parse trim p request_id now http ≡ some (req, http')
      → req.parsed.client_ip ≡ extract_client_ip trim http
  unfolding parse parse_head
  parse-client_ip trim p request_id now http http' req h = ground arith

-- Denied addresses: outside the dry run, while the deny list is on and holds an entry for the
-- address that the request's headers name that has not run out, the handler does not send the
-- request to the upstream, whatever the bypass paths, the allow list, the rate limiter, the
-- rules, the model and the behaviour analysis say.
pub denied_unforwarded :
    {F : Type 0} ⦃fl : Float64 F⦄ (out : Outside F) (trim : Bytes → Bytes) (w : Waf F) (now : ℕ)
    (request_id : Bytes) (http : HttpRequest)
    → w.settings.dry_run ≡ false
    → w.decisions.config.enable_blacklist ≡ true
    → is_blacklisted w.decisions now (extract_client_ip trim http) ≡ true
    → any forwards (serve_http out trim w now request_id http).1 ≡ false
unfolding serve_http serve_next any normalize
denied_unforwarded out trim w now request_id http live on h =
    let next = λ (o : Option (FullRequest × HttpRequest)).
      any forwards (serve_next out trim w now http o).1 ≡ false in
    elim (Option-cases (parse trim w.parser request_id now http)) [
      | inl n ↦ subst next (sym n) refl
      | inr ((req, http'), s) ↦
          let e = parse-client_ip out trim w.parser request_id now http http' req s in
          let h' = subst (λ ip. is_blacklisted w.decisions now ip ≡ true) (sym e) h in
          subst next (sym s)
            (serve_parsed-blocked out trim w now http' (normalize out.codec req) live on h')
    ]
