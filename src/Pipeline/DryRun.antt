-- ===== src/Pipeline/DryRun.antt =====
-- The dry run of internal/middleware/waf.go, and what a promotion does to a permanent entry.
use custom_waf.Decision.Bypass.{should_bypass_waf}
use custom_waf.Base.{
  ℕ, ◌≡◌, ◌∙◌, inl, inr, true, ◌&&◌, Option, some, arith, Bytes, Bytes_eq, String_eq, ℕ_eq,
  Bool-cases, Float64, ◌≤◌, ◌<◌, refl, ap, false, not, ◌||◌, pos, lookup, bytes_beq_self,
}
use mathlib.Core.Path.{subst}
use custom_waf.Base.{any, leb_ℤ, is_zero, ◌-ℤ◌, lookup-insert, pos_part}
use custom_waf.Engine.Types.{ParsedRequest, EvaluationResult}
use custom_waf.Engine.Evaluate.{evaluate}
use custom_waf.Decision.Types.{DecisionEngine, DecisionResult, BehaviorResult}
use custom_waf.Decision.Lists.{
  is_blacklisted, add_blacklist_ip_with_ttl, entry_active, expiry, is_whitelisted_ip,
}
use custom_waf.Decision.Verdict.{decide_with_details}
use custom_waf.Request.Types.{FullRequest, HttpRequest}
use custom_waf.Pipeline.Types.{Waf, Outside}
use custom_waf.Pipeline.Inference.{run_ml_inference}
use custom_waf.Pipeline.Answers.{
  execute, promote_ban_to_blacklist, reject_rate_limited, block_request,
}
use custom_waf.Pipeline.Serve.{
  inspect_request, promoted, analyze_behavior, serve_parsed, limit_request,
}
use custom_waf.Pipeline.Forwards.{forwards, inspect-forwards, promoted_entry}

-- The two engines hold the same lists.
abbrev pub SameLists : {F : Type 0} → DecisionEngine F → DecisionEngine F → Type 0
SameLists de de' =
    (de.blacklist_ips ≡ de'.blacklist_ips)
    × (de.whitelist_ips ≡ de'.whitelist_ips)
    × (de.whitelist_paths ≡ de'.whitelist_paths)

module _ {F : Type 0} ⦃fl : Float64 F⦄ (out : Outside F) where
  decide-SameLists :
      (de : DecisionEngine F) (now : ℕ) (ev : EvaluationResult F) (req : ParsedRequest)
      (b : Option (BehaviorResult F))
      → SameLists (decide_with_details de now ev req b).0 de
  unfolding decide_with_details
  decide-SameLists de now ev req b =
      elim (Bool-cases (de.config.enable_blacklist && is_blacklisted de now req.client_ip)) [
        | inl y ↦ ground arith
        | inr n ↦ ground arith
      ]

  execute-dry :
      (w : Waf F) (http : HttpRequest) (req : FullRequest) (ev : EvaluationResult F)
      (d : DecisionResult F)
      → w.settings.dry_run ≡ true
      → any forwards (execute out w http req ev d) ≡ true
  unfolding execute any
  execute-dry w http req ev d dry = ground arith

  promoted-dry :
      (w : Waf F) (br : BehaviorResult F) (now : ℕ)
      → w.settings.dry_run ≡ true
      → promoted out w br now ≡ w.decisions
  unfolding promoted
  promoted-dry w br now dry = ground arith

  inspect-dry :
      (trim : Bytes → Bytes) (w : Waf F) (now : ℕ) (http : HttpRequest) (req : FullRequest)
      → w.settings.dry_run ≡ true
      → (any forwards (inspect_request out trim w now http req).1 ≡ true)
        × SameLists (inspect_request out trim w now http req).0.decisions w.decisions
  unfolding inspect_request
  inspect-dry trim w now http req dry =
      let e = evaluate out.platform trim w.rules now req.parsed in
      let m = run_ml_inference out w.settings w.client now req e.1 in
      let b = analyze_behavior out w.detector now req m.1 in
      let de = promoted out w b.1 now in
      let d = decide_with_details de now m.1 req.parsed (some b.1) in
      (
        inspect-forwards out trim w now http req ∙ execute-dry w http req m.1 d.1 dry,
        subst (SameLists d.0) (promoted-dry w b.1 now dry)
            (decide-SameLists de now m.1 req.parsed (some b.1)),
      )

-- The dry run: a parsed request goes to the upstream exactly if it is bypassed, allow-listed, or
-- not over a rate limit, whatever is decided about it, and the allow and deny lists are as
-- before. So a request over a rate limit is rejected even then.
pub dry_run_serves :
    {F : Type 0} ⦃fl : Float64 F⦄ (out : Outside F) (trim : Bytes → Bytes) (w : Waf F) (now : ℕ)
    (http : HttpRequest) (req : FullRequest)
    → w.settings.dry_run ≡ true
    → let r = serve_parsed out trim w now http req in
      (any forwards r.1 ≡ (
        should_bypass_waf w.decisions now req.parsed
        || (is_whitelisted_ip w.decisions now req.parsed.client_ip
            || not (limit_request out w.limiter now req).1)))
      × SameLists r.0.decisions w.decisions
unfolding serve_parsed any reject_rate_limited block_request
dry_run_serves out trim w now http req dry =
    let l = limit_request out w.limiter now req in
    elim (Bool-cases (should_bypass_waf w.decisions now req.parsed)) [
      | inl y ↦ rw (serve_parsed, y) (refl, (refl, refl, refl))
      | inr n ↦ elim (Bool-cases (is_whitelisted_ip w.decisions now req.parsed.client_ip)) [
        | inl y ↦ rw (serve_parsed, n, y) (refl, (refl, refl, refl))
        | inr m ↦ elim (Bool-cases l.1) [
          | inl y ↦ rw (serve_parsed, n, m, y) (refl, (refl, refl, refl))
          | inr k ↦
              rw (serve_parsed, n, m, k)
                (inspect-dry out trim (record w { limiter = l.0 }) now http req dry)
        ]
      ]
    ]

-- A promotion overwrites a permanent entry of the deny list: if the behaviour analysis reports a
-- ban in force of an address that is denied without expiry, the entry gets the ban's end as its
-- expiry, so that from then on the address is no longer denied.
pub permanent_ban_lapses :
    {F : Type 0} (de : DecisionEngine F) (br : BehaviorResult F) (now later until : ℕ)
    → lookup br.client_ip de.blacklist_ips ≡ some 0
    → br.blocked_until ≡ pos until
    → now < until
    → until ≤ later
    → (is_blacklisted de later br.client_ip ≡ true)
      × (is_blacklisted (promote_ban_to_blacklist de br now) later br.client_ip ≡ false)
unfolding promote_ban_to_blacklist is_blacklisted add_blacklist_ip_with_ttl entry_active
permanent_ban_lapses de br now later until denied banned start end =
    let z : is_zero br.blocked_until ≡ false = rw banned (ground arith) in
    let l : leb_ℤ br.blocked_until (pos now) ≡ false = rw banned (ground arith) in
    let e = promoted_entry now br.blocked_until z l in
    let x : expiry now (br.blocked_until -ℤ pos now) ≡ until = e.0 ∙ ap pos_part banned in
    let f =
      lookup-insert br.client_ip br.client_ip (expiry now (br.blocked_until -ℤ pos now))
        de.blacklist_ips in
    (ground arith, ground (arith, x, f, bytes_beq_self br.client_ip, z, l))
