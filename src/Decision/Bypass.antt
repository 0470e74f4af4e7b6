-- ===== src/Decision/Bypass.antt =====
-- The bypass of internal/decision/decision.go: paths that skip the whole pipeline.
use custom_waf.Decision.Lists.{is_blacklisted}
use custom_waf.Engine.Types.{ParsedRequest}
use custom_waf.Base.{
  ℕ, Bool, Bytes, String, List, [], bytes, any, ◌∷◌, bytes_beq, has_prefix, ◌||◌, if◌then◌else◌,
  not, ◌&&◌, ◌==◌, String_eq,
}
use custom_waf.Decision.Types.{DecisionEngine}

abbrev pub health_check_paths : List Bytes
health_check_paths =
    bytes "/health"
    ∷ bytes "/healthz"
    ∷ bytes "/health/check"
    ∷ bytes "/ping"
    ∷ bytes "/status"
    ∷ bytes "/metrics"
    ∷ bytes "/dashboard"
    ∷ bytes "/waf-api/"
    ∷ bytes "/login.html"
    ∷ []

abbrev pub realtime_prefixes : List Bytes
realtime_prefixes = bytes "/socket.io/" ∷ bytes "/sockjs-node/" ∷ bytes "/_ws/" ∷ bytes "/ws/" ∷ []

unfoldable pub is_health_check_path : Bytes → Bool
is_health_check_path path =
    any (λ hcp. bytes_beq path hcp || has_prefix path hcp) health_check_paths

unfoldable pub is_realtime_path : Bytes → Bool
is_realtime_path path = any (has_prefix path) realtime_prefixes

module _ {F : Type 0} where
  -- `BypassReason`; the empty reason means that the pipeline runs.
  unfoldable pub bypass_reason : DecisionEngine F → ℕ → ParsedRequest → String
  bypass_reason de now req =
      if de.config.enable_blacklist && is_blacklisted de now req.client_ip
      then ""
      else if is_health_check_path req.normalized_path
      then "health"
      else if is_realtime_path req.normalized_path
      then "realtime"
      else ""

  unfoldable pub should_bypass_waf : DecisionEngine F → ℕ → ParsedRequest → Bool
  should_bypass_waf de now req = not (bypass_reason de now req == "")
