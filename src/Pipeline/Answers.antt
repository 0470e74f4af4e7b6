-- ===== src/Pipeline/Answers.antt =====
-- What the handler of internal/middleware/waf.go answers, logs and counts.
use custom_waf.Base.{
  ℕ, String, Bool, true, false, not, ◌&&◌, ◌||◌, Option, none, some, List, [], ◌∷◌, pos, Bytes,
  Bytes_eq, String_eq, ℕ_eq, bytes, bytes_beq, if◌then◌else◌, ◌==◌, eqb, lookup, Float64,
}
use custom_waf.Base.{leb_ℤ, is_zero, ◌-ℤ◌}
use Prim.Native.String.{◌++◌ as append_text}
use custom_waf.Engine.Types.{ParsedRequest, EvaluationResult, MatchResult}
use custom_waf.Decision.Types.{DecisionEngine, DecisionResult, BehaviorResult}
use custom_waf.Decision.Lists.{add_blacklist_ip_with_ttl}
use custom_waf.Request.Types.{FullRequest, HttpRequest, first_or_empty}
use custom_waf.Request.Parser.{contains_bytes}
use custom_waf.Training.Capture.{
  CaptureLogger, should_skip, log_request, categories, distinct_values,
}
use custom_waf.Pipeline.Types.{Waf, Outside, MlVerdictRecord, AuditEntry, Effect}

-- The name under which a decision is counted when nothing is enforced.
abbrev pub dry_run_name : String → String
dry_run_name decision = append_text "DRYRUN_" decision

module _ {F : Type 0} where
  -- `promoteBanToBlacklist`
  unfoldable pub promote_ban_to_blacklist :
      DecisionEngine F → BehaviorResult F → ℕ → DecisionEngine F
  promote_ban_to_blacklist de br now =
      if is_zero br.blocked_until || leb_ℤ br.blocked_until (pos now)
      then de
      else add_blacklist_ip_with_ttl de now br.client_ip (br.blocked_until -ℤ pos now)

  -- `wantsJSONResponse`
  unfoldable pub wants_json_response : Outside F → ParsedRequest → Bool
  wants_json_response out req =
      let hdr = λ (name : Bytes). first_or_empty (lookup name req.raw_headers) in
      if out.strings.equal_fold (hdr (bytes "Sec-Fetch-Mode")) (bytes "navigate")
      then false
      else if out.strings.equal_fold (hdr (bytes "X-Requested-With")) (bytes "XMLHttpRequest")
      then true
      else contains_bytes (out.strings.lower (hdr (bytes "Accept"))) (bytes "application/json")

  -- The effects on each rule that matched, and on each threat.
  unfoldable pub count_rules : List (MatchResult F) → List (Effect F)
  count_rules [] = []
  count_rules (m ∷ ms) = Effect.count_rule_match m.rule_id m.category m.severity ∷ count_rules ms

  unfoldable pub count_threats : List Bytes → List (Effect F)
  count_threats [] = []
  count_threats (t ∷ ts) = Effect.count_behavior_threat t ∷ count_threats ts

module _ {F : Type 0} ⦃fl : Float64 F⦄ where
  -- `blockRequest`
  unfoldable pub block_request : Outside F → FullRequest → Bytes → ℕ → List (Effect F)
  unfolding wants_json_response
  block_request out req reason status =
      Effect.answer_block status (wants_json_response out req.parsed) reason
      ∷ Effect.count_request_details req.parsed.client_ip req.parsed.method
          req.parsed.normalized_path "BLOCK" (fl.lit 0 0)
      ∷ []

  -- `logWhitelistEntry`
  abbrev pub whitelist_entry : FullRequest → ℕ → AuditEntry F
  whitelist_entry req status = record {
    request = req;
    decision = "ALLOW";
    total_score = fl.lit 0 0;
    rule_score = fl.lit 0 0;
    behavior_score = fl.lit 0 0;
    matched_rules = [];
    categories = [];
    behavior_threats = [];
    response_status = status;
    rate_limited = false;
    block_duration = 0;
    block_reason = [];
    whitelisted = true;
    ml = none;
  }

  abbrev pub rate_limit_entry : FullRequest → AuditEntry F
  rate_limit_entry req = record (whitelist_entry req 429) {
    decision = "BLOCK";
    block_reason = bytes "Rate limit exceeded";
    rate_limited = true;
    whitelisted = false;
  }

  -- The rejection of step 3.
  unfoldable pub reject_rate_limited : Outside F → FullRequest → List (Effect F)
  unfolding block_request
  reject_rate_limited out req =
      Effect.count_rate_limit_hit req.parsed.client_ip
      ∷ Effect.security_event req.parsed.client_ip req.parsed.normalized_path
      ∷ Effect.access_buffer (rate_limit_entry req)
      ∷ block_request out req (bytes "RATE_LIMIT") 429

  -- The highest score of the matches, the earliest of equals.
  unfoldable pub top_match : MatchResult F → List (MatchResult F) → MatchResult F
  top_match top [] = top
  top_match top (m ∷ ms) = top_match (if fl.flt top.score m.score then m else top) ms

  abbrev pub top_of : List (MatchResult F) → Option (MatchResult F)
  top_of [] = none
  top_of (m ∷ ms) = some (top_match m ms)

  -- The severity and the rule of an alert.
  abbrev pub alert_cause : Outside F → Option (MatchResult F) → String × Bytes
  alert_cause out none = ("MEDIUM", [])
  alert_cause out (some m) =
      (if m.severity == "" then "MEDIUM" else out.upper_text m.severity, m.rule_id)

  -- `dispatchAlert`; the request's own host comes first.
  unfoldable pub dispatch_alert :
      Outside F → HttpRequest → FullRequest → EvaluationResult F → DecisionResult F → Effect F
  unfolding top_match
  dispatch_alert out http req ev d =
      let cause = alert_cause out (top_of ev.matched_rules) in
      Effect.alert (record {
        decision = d.decision;
        severity = cause.0;
        request = req;
        host = if bytes_beq http.host [] then req.host else http.host;
        reason = d.reason;
        rule_id = cause.1;
        score = d.final_score;
      })

  -- The status that is logged: the response has not been written yet, so it is 200 unless blocked.
  unfoldable pub logged_status : DecisionResult F → ℕ
  logged_status d =
      if d.decision == "BLOCK"
      then (if eqb d.response_code 0 then 403 else d.response_code)
      else 200

  abbrev pub if_called : MlVerdictRecord F → Option (MlVerdictRecord F)
  if_called v = if v.called then some v else none

  -- The entry of `logAccessEntry`.
  unfoldable pub access_entry :
      FullRequest
      → EvaluationResult F
      → DecisionResult F
      → BehaviorResult F
      → ℕ
      → MlVerdictRecord F
      → AuditEntry F
  access_entry req ev d b status v = record {
    request = req;
    decision = d.decision;
    total_score = d.final_score;
    rule_score = d.rule_score;
    behavior_score = d.behavior_score;
    matched_rules = ev.matched_rules;
    categories = distinct_values [] (categories ev.matched_rules);
    behavior_threats = b.threat_types;
    response_status = status;
    rate_limited = false;
    block_duration = d.block_duration;
    block_reason = d.reason;
    whitelisted = false;
    ml = if_called v;
  }

  -- The capture for training.
  abbrev pub capture_request :
      Outside F
      → Option (CaptureLogger F)
      → ℕ
      → FullRequest
      → EvaluationResult F
      → String
      → ℕ
      → Option (CaptureLogger F)
  capture_request out none now req ev decision status = none
  capture_request out (some l) now req ev decision status = some (
      if l.enabled && not (should_skip out.strings l req.parsed.normalized_path)
      then log_request out.strings out.url_codec l now req ev decision status 0
      else l)

  -- Step 8.
  unfoldable pub execute :
      Outside F
      → Waf F
      → HttpRequest
      → FullRequest
      → EvaluationResult F
      → DecisionResult F
      → List (Effect F)
  unfolding block_request
  execute out w http req ev d =
      let forward = Effect.forward w.backend_url http in
      let count = λ (decision : String).
        Effect.count_request_details req.parsed.client_ip req.parsed.method
          req.parsed.normalized_path decision d.final_score in
      let debug = Effect.debug_headers d ev in
      if w.settings.dry_run
      then debug ∷ forward ∷ count (dry_run_name d.decision) ∷ []
      else if d.decision == "BLOCK"
      then block_request out req d.reason d.response_code
      else if d.decision == "ALLOW" || d.decision == "MONITOR"
      then (if w.settings.enable_debug_headers
          then debug ∷ forward ∷ count d.decision ∷ []
          else forward ∷ count d.decision ∷ [])
      else block_request out req (bytes "Unknown decision") 403
