-- ===== src/Pipeline/Types.antt =====
-- The state of internal/middleware/waf.go, and what its handler does besides changing it.
use custom_waf.Base.{
  ℕ, String, Bool, ◌||◌, Option, List, [], ◌∷◌, ℤ, Bytes, Bytes_eq, String_eq, ℕ_eq, bytes,
}
use custom_waf.Base.{has_prefix, has_suffix, any}
use custom_waf.Engine.Types.{EvaluationResult, MatchResult}
use custom_waf.Engine.Platform.{Platform}
use custom_waf.Engine.Evaluate.{RuleEngine}
use custom_waf.RateLimit.Types.{RateLimiter}
use custom_waf.Decision.Types.{DecisionEngine, DecisionResult}
use custom_waf.Behavior.Types.{Detector}
use custom_waf.Ml.Client.{Client, Transport}
use custom_waf.Request.Types.{FullRequest, HttpRequest}
use custom_waf.Request.Parser.{HttpParser}
use custom_waf.Request.Normalizer.{Codec}
use custom_waf.Training.Text.{Strings}
use custom_waf.Training.Canonical.{UrlCodec}
use custom_waf.Training.Capture.{CaptureLogger}

-- The settings of `WAFConfig`.
pub record WafSettings (F : Type 0) : Type 0 where
  pub ml_gray_lower : F
  pub ml_gray_upper : F
  pub ml_attack_bump : F
  pub ml_normal_penalty : F
  pub ml_confidence_minimum : F
  pub ml_max_text_len : ℤ
  pub enable_debug_headers : Bool
  pub dry_run : Bool

-- The components that the handler runs; `has_notifier` tells whether alerts are sent.
pub record Waf (F : Type 0) : Type 0 where
  pub parser : HttpParser
  pub limiter : RateLimiter
  pub rules : RuleEngine F
  pub detector : Detector F
  pub decisions : DecisionEngine F
  pub client : Option (Client F)
  pub capture : Option (CaptureLogger F)
  pub has_notifier : Bool
  pub settings : WafSettings F
  pub backend_url : Bytes

-- What is not the repository's code: Go's libraries (`upper_text` is `ToUpper` of a severity), the
-- ML service and the upstream, which
-- answers a request at a URL with a status.
pub record Outside (F : Type 0) : Type 0 where
  pub platform : Platform F
  pub strings : Strings
  pub url_codec : UrlCodec
  pub codec : Codec
  pub transport : Transport F
  pub upper_text : String → String
  pub upstream : Bytes → HttpRequest → ℕ

-- The outcome of one call of the model.
pub record MlVerdictRecord (F : Type 0) : Type 0 where
  pub called : Bool
  pub label : Bytes
  pub confidence : F
  pub is_attack : Bool
  pub adjustment : F
  pub failed : Bool

-- `AuditEntry`: the request whose fields it copies, and the verdict.
pub record AuditEntry (F : Type 0) : Type 0 where
  pub request : FullRequest
  pub decision : String
  pub total_score : F
  pub rule_score : F
  pub behavior_score : F
  pub matched_rules : List (MatchResult F)
  pub categories : List Bytes
  pub behavior_threats : List Bytes
  pub response_status : ℕ
  pub rate_limited : Bool
  pub block_duration : ℕ
  pub block_reason : Bytes
  pub whitelisted : Bool
  pub ml : Option (MlVerdictRecord F)

-- `notifier.Event`
pub record Alert (F : Type 0) : Type 0 where
  pub decision : String
  pub severity : String
  pub request : FullRequest
  pub host : Bytes
  pub reason : Bytes
  pub rule_id : Bytes
  pub score : F

-- What the handler does to the world, in order. The latencies it records are left out.
pub data Effect (F : Type 0) : Type 0 where
  -- the request goes to the upstream at this URL
  forward : Bytes → HttpRequest → Effect F
  -- an error, with its status
  answer_error : ℕ → Bytes → Effect F
  -- a block page or a JSON body, with the status and the reason
  answer_block : ℕ → Bool → Bytes → Effect F
  debug_headers : DecisionResult F → EvaluationResult F → Effect F
  access_log : AuditEntry F → Effect F
  access_buffer : AuditEntry F → Effect F
  security_event : Bytes → Bytes → Effect F
  system_event : Bytes → Bytes → Effect F
  alert : Alert F → Effect F
  -- the counters of internal/metrics
  count_request : String → F → Effect F
  count_request_details : Bytes → Bytes → Bytes → String → F → Effect F
  count_rate_limit_hit : Bytes → Effect F
  count_rule_match : Bytes → Bytes → String → Effect F
  count_behavior_threat : Bytes → Effect F
  average_score : F → Effect F

abbrev pub asset_prefixes : List Bytes
asset_prefixes = bytes "/assets/" ∷ bytes "/public/" ∷ []

abbrev pub asset_suffixes : List Bytes
asset_suffixes =
    bytes ".jpg"
    ∷ bytes ".jpeg"
    ∷ bytes ".png"
    ∷ bytes ".gif"
    ∷ bytes ".webp"
    ∷ bytes ".svg"
    ∷ bytes ".css"
    ∷ bytes ".js"
    ∷ bytes ".woff"
    ∷ bytes ".woff2"
    ∷ bytes ".ttf"
    ∷ bytes ".ico"
    ∷ []

unfoldable pub is_static_asset : Bytes → Bool
is_static_asset path = any (has_prefix path) asset_prefixes || any (has_suffix path) asset_suffixes
