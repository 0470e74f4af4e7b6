-- ===== src/Behavior/Checks.antt =====
-- The checks of internal/behavior/detector.go. One reading of the clock stands for the readings
-- that one request makes.
use custom_waf.Base.{
  ℕ, suc, ◌-◌, Bool, true, false, not, ◌&&◌, List, [], ◌∷◌, ◌++◌, ℤ, pos, Bytes, Bytes_eq,
  String_eq, ℕ_eq, bytes, bytes_beq, if◌then◌else◌, ◌==◌, ltb, leb, eqb, length, Float64,
}
use custom_waf.Base.{any, has_prefix, ltb_ℤ, leb_ℤ, ◌+ℤ◌, ◌-ℤ◌, quot, drop}
use mathlib.Core.List.{reverse}
use custom_waf.Engine.Types.{ParsedRequest, EvaluationResult}
use custom_waf.Decision.Types.{BehaviorResult}
use custom_waf.Behavior.Types.{BehaviorConfig, IpStatistics}

abbrev pub suspicious_patterns : List Bytes
suspicious_patterns =
    bytes "sqlmap"
    ∷ bytes "nikto"
    ∷ bytes "nmap"
    ∷ bytes "masscan"
    ∷ bytes "nessus"
    ∷ bytes "openvas"
    ∷ bytes "acunetix"
    ∷ bytes "burp"
    ∷ bytes "zgrab"
    ∷ bytes "python-requests"
    ∷ bytes "curl"
    ∷ bytes "wget"
    ∷ bytes "scanner"
    ∷ bytes "bot"
    ∷ bytes "crawler"
    ∷ bytes "spider"
    ∷ []

-- `contains` is a test for a prefix, and nothing is put in lower case.
unfoldable pub is_suspicious_user_agent : Bytes → Bool
is_suspicious_user_agent ua = any (has_prefix ua) suspicious_patterns

-- The differences between neighbours.
unfoldable pub intervals : List ℕ → List ℤ
intervals [] = []
intervals (t ∷ []) = []
intervals (t ∷ u ∷ ts) = (pos u -ℤ pos t) ∷ intervals (u ∷ ts)

abbrev pub sum_ℤ : ℤ → List ℤ → ℤ
sum_ℤ s [] = s
sum_ℤ s (x ∷ xs) = sum_ℤ (s +ℤ x) xs

-- The newest times that lie after a given one: the count of the loop from the end of the list.
-- The argument is the list from its end.
unfoldable pub count_recent : ℤ → List ℕ → ℕ
count_recent since [] = 0
count_recent since (t ∷ ts) =
    let rest = count_recent since ts in if ltb_ℤ since (pos t) then suc rest else 0

abbrev pub add_threat : {F : Type 0} → Bytes → BehaviorResult F → BehaviorResult F
add_threat threat r = record r {
  threat_detected = true;
  threat_types = r.threat_types ++ (threat ∷ []);
}

module _ {F : Type 0} ⦃fl : Float64 F⦄ where
  abbrev pub add_score : F → BehaviorResult F → BehaviorResult F
  add_score s r = record r { suspicion_score = fl.fadd r.suspicion_score s }

  -- The squares of the distances from the average, added up.
  unfoldable pub square_sum : ℤ → F → List ℤ → F
  square_sum avg s [] = s
  square_sum avg s (x ∷ xs) =
      let diff = fl.of_int (x -ℤ avg) in square_sum avg (fl.fadd s (fl.fmul diff diff)) xs

-- `hasRegularPattern`: the variance of the last nine intervals is below 10^9.
unfoldable pub has_regular_pattern : (F : Type 0) ⦃fl : Float64 F⦄ → List ℕ → Bool
unfolding intervals square_sum
has_regular_pattern F ⦃fl⦄ timestamps =
    let last = intervals (drop (length timestamps - 10) timestamps) in
    let avg = quot (sum_ℤ (pos 0) last) (length last) in
    let variance = fl.fdiv (square_sum avg (fl.lit 0 0) last) (fl.of_int (pos (length last))) in
    if ltb (length timestamps) 10 then false else fl.flt variance (fl.lit 1000000000 0)

module _ {F : Type 0} ⦃fl : Float64 F⦄ where
  -- `checkBruteForce`: a request that the rules block is a failed attempt.
  unfoldable pub count_attempt : IpStatistics F → EvaluationResult F → IpStatistics F
  count_attempt stats ev =
      if ev.decision == "BLOCK"
      then record stats { failed_attempts = suc stats.failed_attempts }
      else record stats { successful_attempts = suc stats.successful_attempts }

  -- Inside the window an address with enough failures is banned; outside it starts anew.
  unfoldable pub check_window :
      BehaviorConfig F → ℕ → IpStatistics F × BehaviorResult F → IpStatistics F × BehaviorResult F
  check_window config now (stats, r) =
      if leb_ℤ (pos now -ℤ pos stats.first_attempt) config.brute_force_window
      then if leb_ℤ config.brute_force_threshold (pos stats.failed_attempts)
        then (let until = pos now +ℤ config.block_duration in
            (
              record stats { is_blocked = true; blocked_until = until },
              record (add_score (fl.lit 4 1) (add_threat (bytes "BRUTEFORCE") r)) {
                recommend_action = "BLOCK";
                blocked_until = until;
              },
            ))
        else (stats, r)
      else (record stats { failed_attempts = 0; first_attempt = now }, r)

  -- More than half of more than ten requests failed.
  unfoldable pub check_fail_rate : IpStatistics F → BehaviorResult F → BehaviorResult F
  check_fail_rate stats r =
      let rate =
        fl.fdiv (fl.of_int (pos stats.failed_attempts)) (fl.of_int (pos stats.total_requests)) in
      if ltb 10 stats.total_requests && fl.flt (fl.lit 5 1) rate
      then add_score (fl.lit 2 1) r
      else r

  unfoldable pub check_brute_force :
      BehaviorConfig F
      → ℕ
      → EvaluationResult F
      → IpStatistics F × BehaviorResult F
      → IpStatistics F × BehaviorResult F
  unfolding count_attempt check_window check_fail_rate
  check_brute_force config now ev (stats, r) =
      let checked = check_window config now (count_attempt stats ev, r) in
      (checked.0, check_fail_rate checked.0 checked.1)

  -- The four parts of the bot score.
  unfoldable pub bot_score : IpStatistics F → Bytes → F
  unfolding is_suspicious_user_agent has_regular_pattern
  bot_score stats ua =
      let s0 = fl.lit 0 0 in
      let s1 =
        if bytes_beq ua []
        then fl.fadd s0 (fl.lit 3 1)
        else if is_suspicious_user_agent ua
        then fl.fadd s0 (fl.lit 4 1)
        else s0 in
      let s2 =
        if ltb 50 (length stats.unique_paths) && ltb stats.total_requests 100
        then fl.fadd s1 (fl.lit 2 1)
        else s1 in
      let s3 =
        if has_regular_pattern F stats.request_timestamps then fl.fadd s2 (fl.lit 2 1) else s2 in
      if eqb (length stats.unique_user_agents) 1 && ltb 100 stats.total_requests
      then fl.fadd s3 (fl.lit 1 1)
      else s3

  unfoldable pub check_bot_behavior :
      BehaviorConfig F
      → ParsedRequest
      → IpStatistics F × BehaviorResult F
      → IpStatistics F × BehaviorResult F
  unfolding bot_score
  check_bot_behavior config req (stats, r) =
      let score = bot_score stats req.user_agent in
      let named =
        if not (bytes_beq req.user_agent []) && is_suspicious_user_agent req.user_agent
        then record r { threat_types = r.threat_types ++ (bytes "SCANNER_TOOL" ∷ []) }
        else r in
      if fl.fle config.bot_score_threshold score
      then (
        record stats { is_bot = true },
        add_score score (add_threat (bytes "AUTOMATED_BOT") named),
      )
      else (stats, named)

  unfoldable pub check_velocity :
      BehaviorConfig F → ℕ → IpStatistics F → BehaviorResult F → BehaviorResult F
  unfolding count_recent
  check_velocity config now stats r =
      let recent = count_recent (pos now -ℤ pos 1000000000) (reverse stats.request_timestamps) in
      if ltb_ℤ config.max_requests_per_second (pos recent)
      then record (add_score (fl.lit 3 1) (add_threat (bytes "HIGH_VELOCITY") r)) {
        recommend_action = "MONITOR";
      }
      else r

  -- The loop over the categories, in the order of the map.
  unfoldable pub check_attack_patterns : List (Bytes × ℕ) → BehaviorResult F → BehaviorResult F
  check_attack_patterns [] r = r
  check_attack_patterns ((category, count) ∷ attacks) r = check_attack_patterns attacks (
      if leb 3 count
      then add_score (fl.lit 2 1) (add_threat (bytes "REPEATED_" ++ category) r)
      else r)
