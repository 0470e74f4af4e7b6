-- ===== src/Behavior/Restored.antt =====
-- The detector of internal/behavior/detector.go after a restart.
use custom_waf.Base.{ℕ, ◌≡◌, List, Bytes_eq, String_eq, ℕ_eq, Float64}
use custom_waf.Decision.Types.{BehaviorResult}
use custom_waf.Behavior.Types.{BehaviorConfig, IpStatistics, Detector}
use custom_waf.Behavior.Checks.{check_velocity}
use custom_waf.Behavior.Detector.{banned}
use custom_waf.Behavior.Persist.{ip_to_wire, ip_from_wire}

module _ {F : Type 0} ⦃fl : Float64 F⦄ where
  abbrev pub rewired : IpStatistics F → IpStatistics F
  rewired s = ip_from_wire (ip_to_wire s)

  -- What the checks of a request see of an address.
  pub record SeenAlike (config : BehaviorConfig F) (s s' : IpStatistics F) : Type 0 where
    pub ban : (now : ℕ) → banned now s' ≡ banned now s
    pub failures : s'.failed_attempts ≡ s.failed_attempts
    pub window : s'.first_attempt ≡ s.first_attempt
    pub requests : s'.total_requests ≡ s.total_requests
    pub attacks : s'.detected_attacks ≡ s.detected_attacks
    pub velocity :
        (now : ℕ) (r : BehaviorResult F)
        → check_velocity config now s' r ≡ check_velocity config now s r
