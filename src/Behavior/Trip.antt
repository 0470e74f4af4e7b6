-- ===== src/Behavior/Trip.antt =====
-- What trips the ban of internal/behavior/detector.go, and what the later checks make of it.
use custom_waf.Behavior.Ban.{Visit, Before, Refused, run, Banned, run-Refused}
use custom_waf.Decision.Types.{BehaviorResult}
use mathlib.Core.Path.{subst}
use custom_waf.Engine.Types.{EvaluationResult, ParsedRequest}
use custom_waf.Behavior.Detector.{
  run_checks, analyze, inspect, note_request, banned, statistics_of, lift_ban, no_threat,
}
use custom_waf.Behavior.Checks.{
  check_fail_rate, check_brute_force, check_bot_behavior, check_attack_patterns, check_velocity,
  count_attempt, check_window, count_recent,
}
use custom_waf.Behavior.Types.{BehaviorConfig, Detector, IpStatistics}
use custom_waf.Base.{
  ℕ, suc, ◌≡◌, refl, sym, ◌∙◌, true, false, List, [], ◌∷◌, arith, pos, Bytes, Bytes_eq, String_eq,
  ℕ_eq, if◌then◌else◌, Float64, leb_ℤ, ◌+ℤ◌, ltb_ℤ, ◌-ℤ◌, lookup-insert, bytes_beq_self,
}
use mathlib.Core.List.{reverse}

module _ {F : Type 0} ⦃fl : Float64 F⦄ where
  -- A blocked request that reaches the limit of failures inside the window.
  pub record Trips (config : BehaviorConfig F) (now : ℕ) (s : IpStatistics F)
      (ev : EvaluationResult F) : Type 0 where
    pub blocked : ev.decision ≡ "BLOCK"
    pub inside : leb_ℤ (pos now -ℤ pos s.first_attempt) config.brute_force_window ≡ true
    pub enough : leb_ℤ config.brute_force_threshold (pos (suc s.failed_attempts)) ≡ true

  check_fail_rate-action :
      (s : IpStatistics F) (r : BehaviorResult F)
      → (check_fail_rate s r).recommend_action ≡ r.recommend_action
  unfolding check_fail_rate
  check_fail_rate-action s r = ground arith

  check_brute_force-trip :
      (config : BehaviorConfig F) (now : ℕ) (ev : EvaluationResult F) (s : IpStatistics F)
      (r : BehaviorResult F)
      → Trips config now s ev
      → let c = check_brute_force config now ev (s, r) in
        (c.0.is_blocked ≡ true)
        × (c.0.blocked_until ≡ pos now +ℤ config.block_duration)
        × (c.1.recommend_action ≡ "BLOCK")
        × (c.0.request_timestamps ≡ s.request_timestamps)
  unfolding check_brute_force count_attempt check_window
  check_brute_force-trip config now ev s r h =
      let w = check_window config now (count_attempt s ev, r) in
      (
        rw (h.blocked, h.inside, h.enough) refl,
        rw (h.blocked, h.inside, h.enough) refl,
        check_fail_rate-action w.0 w.1 ∙ rw (h.blocked, h.inside, h.enough) refl,
        rw (h.blocked, h.inside, h.enough) refl,
      )

  check_bot_behavior-kept :
      (config : BehaviorConfig F) (req : ParsedRequest) (s : IpStatistics F) (r : BehaviorResult F)
      → let c = check_bot_behavior config req (s, r) in
        (c.0.is_blocked ≡ s.is_blocked)
        × (c.0.blocked_until ≡ s.blocked_until)
        × (c.0.request_timestamps ≡ s.request_timestamps)
  unfolding check_bot_behavior
  check_bot_behavior-kept config req s r = ground arith

  check_attack_patterns-action :
      (m : List (Bytes × ℕ)) (r : BehaviorResult F)
      → (check_attack_patterns m r).recommend_action ≡ r.recommend_action
  unfolding check_attack_patterns
  check_attack_patterns-action [] r = refl
  check_attack_patterns-action ((c, n) ∷ m) r = check_attack_patterns-action m _ ∙ ground arith

  check_velocity-action :
      (config : BehaviorConfig F) (now : ℕ) (s : IpStatistics F) (r : BehaviorResult F)
      → ltb_ℤ config.max_requests_per_second
          (pos (count_recent (pos now -ℤ pos 1000000000) (reverse s.request_timestamps)))
        ≡ true
      → (check_velocity config now s r).recommend_action ≡ "MONITOR"
  unfolding check_velocity
  check_velocity-action config now s r h = ground arith

  -- What the checks of a tripping request leave.
  run_checks-trip :
      (config : BehaviorConfig F) (now : ℕ) (req : ParsedRequest) (ev : EvaluationResult F)
      (s : IpStatistics F) (r : BehaviorResult F)
      → Trips config now s ev
      → let c = run_checks config now req ev (s, r) in
        (c.0.is_blocked ≡ true)
        × (c.0.blocked_until ≡ pos now +ℤ config.block_duration)
        × (c.0.request_timestamps ≡ s.request_timestamps)
  unfolding run_checks
  run_checks-trip config now req ev s r h =
      let a = check_brute_force config now ev (s, r) in
      let t = check_brute_force-trip config now ev s r h in
      let k = check_bot_behavior-kept config req a.0 a.1 in ground (arith, t, k)

  -- The statistics of the client with this request noted.
  abbrev pub noted : Detector F → Visit F → IpStatistics F
  noted d v = note_request (statistics_of d v.at v.req.client_ip) v.at v.req v.ev

  -- A request from an address that is not under a ban, and that trips one.
  abbrev pub Tripping : Detector F → Visit F → Type 0
  Tripping d v =
      (banned v.at (noted d v) ≡ false) × Trips d.config v.at (lift_ban (noted d v) v.at) v.ev

  -- More requests in the last second than allowed.
  abbrev pub Fast : BehaviorConfig F → ℕ → List ℕ → Type 0
  Fast config now times =
      ltb_ℤ config.max_requests_per_second
        (pos (count_recent (pos now -ℤ pos 1000000000) (reverse times)))
      ≡ true

  run_checks-monitor :
      (config : BehaviorConfig F) (now : ℕ) (req : ParsedRequest) (ev : EvaluationResult F)
      (s : IpStatistics F) (r : BehaviorResult F)
      → Trips config now s ev
      → config.velocity_enabled ≡ true
      → Fast config now s.request_timestamps
      → (run_checks config now req ev (s, r)).1.recommend_action ≡ "MONITOR"
  unfolding run_checks
  run_checks-monitor config now req ev s r h on fast =
      let a = check_brute_force config now ev (s, r) in
      let b = if config.bot_detection_enabled then check_bot_behavior config req a else a in
      let kept : b.0.request_timestamps ≡ s.request_timestamps =
        (run_checks-trip config now req ev s r h).2 in
      let f = subst (Fast config now) (sym kept) fast in
      check_attack_patterns-action b.0.detected_attacks _
      ∙ simp on (check_velocity-action config now b.0 b.1 f)

  lift_ban-times :
      (s : IpStatistics F) (now : ℕ) → (lift_ban s now).request_timestamps ≡ s.request_timestamps
  unfolding lift_ban
  lift_ban-times s now = ground arith

  analyze-trip :
      (d : Detector F) (v : Visit F)
      → Tripping d v
      → Banned (analyze d v.at v.req v.ev).0 v.req.client_ip (pos v.at +ℤ d.config.block_duration)
  unfolding analyze inspect
  analyze-trip d v (n, h) =
      let ip = v.req.client_ip in
      let s = lift_ban (noted d v) v.at in
      let c = run_checks d.config v.at v.req v.ev (s, no_threat ip) in
      let k = run_checks-trip d.config v.at v.req v.ev s (no_threat ip) h in
      let final = record (c.0) {
        suspicion_score = c.1.suspicion_score;
        is_suspicious = fl.flt (fl.lit 5 1) c.1.suspicion_score;
      } in
      let found = lookup-insert ip ip final d.ip_stats ∙ rw (bytes_beq_self ip) refl in
      (final, rw (analyze, n) found, k.0, k.1)

-- Temporary bans: a request that the rules block, from an address not under a ban, within the
-- brute-force window and with enough failures counted, imposes a ban, and in every later run of
-- requests before its end each request of that address is answered with BLOCK, whatever the
-- other addresses do.
pub brute_force-ban :
    {F : Type 0} ⦃fl : Float64 F⦄ (d : Detector F) (v : Visit F) (vs : List (Visit F))
    → Tripping d v
    → Before (pos v.at +ℤ d.config.block_duration) vs
    → Refused v.req.client_ip vs (run (analyze d v.at v.req v.ev).0 vs)
brute_force-ban d v vs t b =
    run-Refused vs (analyze d v.at v.req v.ev).0 v.req.client_ip
      (pos v.at +ℤ d.config.block_duration) (analyze-trip d v t) b

-- The velocity check comes after the brute-force check and overwrites its answer: a request that
-- trips a ban while its address also exceeds the velocity limit leaves the address banned, and
-- is itself answered with MONITOR, not BLOCK.
pub brute_force-monitored :
    {F : Type 0} ⦃fl : Float64 F⦄ (d : Detector F) (v : Visit F)
    → Tripping d v
    → d.config.velocity_enabled ≡ true
    → Fast d.config v.at (noted d v).request_timestamps
    → Banned (analyze d v.at v.req v.ev).0 v.req.client_ip (pos v.at +ℤ d.config.block_duration)
      × ((analyze d v.at v.req v.ev).1.recommend_action ≡ "MONITOR")
unfolding analyze inspect
brute_force-monitored d v (n, h) on fast =
    let s = lift_ban (noted d v) v.at in
    let f = subst (Fast d.config v.at) (sym (lift_ban-times (noted d v) v.at)) fast in
    (
      analyze-trip d v (n, h),
      rw (analyze, n)
          (run_checks-monitor d.config v.at v.req v.ev s (no_threat v.req.client_ip) h on f),
    )
