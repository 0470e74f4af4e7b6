-- ===== src/Pipeline/Serve.antt =====
-- The handler of internal/middleware/waf.go, step by step. One reading of the clock stands for
-- the readings that one request makes.
use custom_waf.Base.{
  ℕ, Bool, true, false, not, ◌&&◌, Option, none, some, List, [], ◌∷◌, ◌++◌, Bytes, Bytes_eq,
  String_eq, ℕ_eq, bytes, bytes_beq, if◌then◌else◌, ◌==◌, Float64,
}
use custom_waf.Engine.Types.{EvaluationResult}
use custom_waf.Engine.Evaluate.{evaluate}
use custom_waf.RateLimit.Limiter.{is_rate_limited_with_route}
use custom_waf.RateLimit.Types.{RateLimiter}
use custom_waf.Decision.Types.{DecisionEngine, DecisionResult, BehaviorResult}
use custom_waf.Decision.Lists.{is_whitelisted_ip}
use custom_waf.Decision.Bypass.{should_bypass_waf}
use custom_waf.Decision.Verdict.{decide_with_details}
use custom_waf.Behavior.Types.{Detector}
use custom_waf.Behavior.Detector.{analyze, no_threat}
use custom_waf.Request.Types.{FullRequest, HttpRequest}
use custom_waf.Request.Parser.{parse}
use custom_waf.Request.Normalizer.{normalize}
use custom_waf.Pipeline.Types.{Waf, Outside, MlVerdictRecord, Effect, is_static_asset}
use custom_waf.Pipeline.Inference.{run_ml_inference}
use custom_waf.Pipeline.Answers.{
  promote_ban_to_blacklist, count_rules, count_threats, whitelist_entry, reject_rate_limited,
  dispatch_alert, logged_status, access_entry, capture_request, execute,
}

module _ {F : Type 0} ⦃fl : Float64 F⦄ (out : Outside F) where
  -- Step 5, with the detector that it leaves.
  unfoldable pub analyze_behavior :
      Detector F → ℕ → FullRequest → EvaluationResult F → Detector F × BehaviorResult F
  analyze_behavior d now req ev =
      if is_static_asset req.parsed.normalized_path
      then (d, no_threat req.parsed.client_ip)
      else analyze d now req.parsed ev

  -- The decision engine that step 6 asks: a ban that is in force is on its deny list.
  unfoldable pub promoted : Waf F → BehaviorResult F → ℕ → DecisionEngine F
  promoted w br now =
      if w.settings.dry_run then w.decisions else promote_ban_to_blacklist w.decisions br now

  abbrev pub if_alert : Bool → Effect F → List (Effect F)
  if_alert true e = e ∷ []
  if_alert false e = []

  -- What steps 4 to 7 count and log.
  unfoldable pub record_effects :
      Waf F
      → HttpRequest
      → FullRequest
      → EvaluationResult F
      → DecisionResult F
      → BehaviorResult F
      → MlVerdictRecord F
      → List (Effect F)
  record_effects w http req ev d b v =
      let entry = access_entry req ev d b (logged_status d) v in
      let wants = w.has_notifier && (not w.settings.dry_run && d.decision == "BLOCK") in
      count_rules ev.matched_rules
      ++ (count_threats b.threat_types
          ++ (Effect.average_score d.final_score
              ∷ Effect.access_log entry
              ∷ Effect.access_buffer entry
              ∷ if_alert wants (dispatch_alert out http req ev d)))

  -- Steps 4 to 8.
  unfoldable pub inspect_request :
      (Bytes → Bytes) → Waf F → ℕ → HttpRequest → FullRequest → Waf F × List (Effect F)
  unfolding analyze_behavior promoted record_effects
  inspect_request trim w now http req =
      let e = evaluate out.platform trim w.rules now req.parsed in
      let m = run_ml_inference out w.settings w.client now req e.1 in
      let ev = m.1 in
      let b = analyze_behavior w.detector now req ev in
      let d = decide_with_details (promoted w b.1 now) now ev req.parsed (some b.1) in
      (
        record w {
          rules = e.0;
          client = m.0;
          detector = b.0;
          decisions = d.0;
          capture = capture_request out w.capture now req ev d.1.decision (logged_status d.1);
        },
        record_effects w http req ev d.1 b.1 m.2 ++ execute out w http req ev d.1,
      )

  -- Step 3: a static asset is not counted.
  unfoldable pub limit_request : RateLimiter → ℕ → FullRequest → RateLimiter × Bool
  limit_request rl now req =
      if is_static_asset req.parsed.normalized_path
      then (rl, false)
      else is_rate_limited_with_route rl now req.parsed.client_ip req.parsed.normalized_path

  -- What follows the parsing and the normalization.
  unfoldable pub serve_parsed :
      (Bytes → Bytes) → Waf F → ℕ → HttpRequest → FullRequest → Waf F × List (Effect F)
  unfolding limit_request inspect_request
  serve_parsed trim w now http req =
      let forward = Effect.forward w.backend_url http in
      let entry = whitelist_entry req (out.upstream w.backend_url http) in
      let l = limit_request w.limiter now req in
      let w' = record w { limiter = l.0 } in
      if should_bypass_waf w.decisions now req.parsed
      then (w, Effect.count_request "BYPASS" (fl.lit 0 0) ∷ forward ∷ [])
      else if is_whitelisted_ip w.decisions now req.parsed.client_ip
      then (
        w,
        Effect.count_request "ALLOW" (fl.lit 0 0)
            ∷ forward
            ∷ Effect.access_log entry
            ∷ Effect.access_buffer entry
            ∷ [],
      )
      else if l.1
      then (w', reject_rate_limited out req)
      else inspect_request trim w' now http req

  -- `handleError`
  abbrev pub handle_error : HttpRequest → Bytes → ℕ → List (Effect F)
  handle_error http message status =
      Effect.answer_error status message
      ∷ Effect.system_event (bytes "ERROR") (http.url_path ++ (bytes ": " ++ message))
      ∷ []

  -- What follows the parsing.
  unfoldable pub serve_next :
      (Bytes → Bytes)
      → Waf F
      → ℕ
      → HttpRequest
      → Option (FullRequest × HttpRequest)
      → Waf F × List (Effect F)
  unfolding serve_parsed
  serve_next trim w now http none = (w, handle_error http (bytes "Failed to parse request") 400)
  serve_next trim w now http (some (req, http')) =
      serve_parsed trim w now http' (normalize out.codec req)

  -- `ServeHTTP`
  unfoldable pub serve_http :
      (Bytes → Bytes) → Waf F → ℕ → Bytes → HttpRequest → Waf F × List (Effect F)
  unfolding serve_next
  serve_http trim w now request_id http =
      serve_next trim w now http (parse trim w.parser request_id now http)

module _ {F : Type 0} where
  -- `UpdateBackend`, given the scheme of the new URL, none if it does not parse; `none` is an error.
  unfoldable pub update_backend : Waf F → Bytes → Option Bytes → Option (Waf F)
  update_backend w url none = none
  update_backend w url (some scheme) =
      if not (bytes_beq scheme (bytes "http")) && not (bytes_beq scheme (bytes "https"))
      then none
      else some (record w { backend_url = url })
