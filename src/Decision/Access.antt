-- ===== src/Decision/Access.antt =====
-- Bypass, allow-listing and restored lists of internal/decision/decision.go.
use custom_waf.Decision.Outcome.{decision-verdict}
use custom_waf.Decision.Verdict.{decide_with_details}
use custom_waf.Decision.Lists.{is_blacklisted, is_whitelisted_ip, is_whitelisted}
use custom_waf.Engine.Types.{EvaluationResult, ParsedRequest}
use custom_waf.Decision.Bypass.{bypass_reason, is_health_check_path, health_check_paths}
use custom_waf.Base.{
  ℕ, ◌≡◌, ◌↔◌, ◌⊎◌, inl, inr, true, false, ◌&&◌, ◌||◌, Option, List, [], ◌∷◌, ◌++◌, arith, eq_iff,
  Bytes, Bytes_eq, String_eq, ℕ_eq, bytes_beq, bytes_beq_iff, Bool-cases, length, Float64,
  has_prefix-append, drop, split_of_prefix, has_prefix_self,
}
use custom_waf.Base.{any, has_prefix}
use custom_waf.Decision.Types.{DecisionEngine, BehaviorResult}

-- Some listed prefix begins the path.
abbrev pub Begins : Bytes → List Bytes → Type 0
Begins path [] = ⊥
Begins path (p ∷ ps) = ((t : Bytes) × (path ≡ p ++ t)) ⊎ Begins path ps

any_prefix-Begins :
    (path : Bytes) (ps : List Bytes)
    → Begins path ps
    → any (λ p. bytes_beq path p || has_prefix path p) ps ≡ true
unfolding any
any_prefix-Begins path [] b = absurd b
any_prefix-Begins path (p ∷ ps) (inl (t, e)) = ground (arith, has_prefix-append p t)
any_prefix-Begins path (p ∷ ps) (inr b) = ground (arith, any_prefix-Begins path ps b)

Begins-any :
    (path : Bytes) (ps : List Bytes)
    → any (λ p. bytes_beq path p || has_prefix path p) ps ≡ true
    → Begins path ps
unfolding any
Begins-any path [] h = cc
Begins-any path (p ∷ ps) h = elim (Bool-cases (has_prefix path p)) [
  | inl y ↦ inl (drop (length p) path, split_of_prefix path p y)
  | inr n ↦ elim (Bool-cases (bytes_beq path p)) [
    | inl e ↦ ground (arith, bytes_beq_iff path p, has_prefix_self p)
    | inr d ↦ inr (Begins-any path ps (ground arith))
  ]
]

is_health_check_path_iff :
    (path : Bytes) → (is_health_check_path path ≡ true) ↔ Begins path health_check_paths
unfolding is_health_check_path
is_health_check_path_iff path =
    (Begins-any path health_check_paths, any_prefix-Begins path health_check_paths)

module _ {F : Type 0} (de : DecisionEngine F) (now : ℕ) where
  -- A request is bypassed as a health check exactly if its path begins with one of the nine listed
  -- texts, whatever follows, and its address is not banned by a deny list that is switched on.
  pub bypass_reason_health :
      (req : ParsedRequest)
      → (bypass_reason de now req ≡ "health") ↔ (
          ((de.config.enable_blacklist && is_blacklisted de now req.client_ip) ≡ false)
          × Begins req.normalized_path health_check_paths)
  unfolding bypass_reason
  bypass_reason_health req =
      let health = is_health_check_path_iff req.normalized_path in
      (
        λ e. (
          ground (arith, eq_iff "realtime" "health", eq_iff "" "health"),
          health.0 (ground (arith, eq_iff "realtime" "health", eq_iff "" "health")),
        ),
        λ h. ground (arith, h.0, health.1 h.1),
      )

  -- The allow-list test of the pipeline agrees with the decision: what it lets through is allowed,
  -- whatever the rules and the behaviour analysis say.
  pub whitelisted_ip_allowed :
      ⦃fl : Float64 F⦄
      → (ev : EvaluationResult F) (req : ParsedRequest) (behavior : Option (BehaviorResult F))
      → is_whitelisted_ip de now req.client_ip ≡ true
      → (decide_with_details de now ev req behavior).1.decision ≡ "ALLOW"
  unfolding is_whitelisted_ip is_whitelisted
  whitelisted_ip_allowed ev req behavior h = ground (arith, decision-verdict de now ev req behavior)
