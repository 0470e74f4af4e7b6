-- ===== src/Tests/Verdicts.antt =====
-- The theorems on internal/decision/decision.go, applied to a small engine whose floats are whole
-- hundredths.
use custom_waf.Base.{
  ℕ, ◌+◌, ◌*◌, ◌/◌, ◌≤◌, ◌≡◌, refl, ◌≢◌, ◌↔◌, ◌⊎◌, true, false, ◌&&◌, some, [], ◌∷◌, arith, ℤ, pos,
  Bytes, Bytes_eq, String_eq, ℕ_eq, bytes, bytes_beq, if◌then◌else◌, lookup, length, Float64, ◌^◌,
}
use custom_waf.Base.{pos_part, leb_ℤ, ltb_ℤ, has_prefix, any, ◌+ℤ◌, ◌-ℤ◌, ◌*ℤ◌, quot}
use custom_waf.Engine.Types.{EvaluationResult, ParsedRequest}
use custom_waf.Decision.Types.{DecisionEngine, DecisionConfig, BehaviorResult, zero_stats}
use custom_waf.Decision.Lists.{
  is_blacklisted, is_whitelisted, add_blacklist_ip_with_ttl, prune_expired_ips,
  set_blacklist_entries, get_blacklist_entries,
}
use custom_waf.Decision.Bypass.{bypass_reason, is_health_check_path, health_check_paths}
use custom_waf.Decision.Verdict.{decide_with_details, combined_score}
use custom_waf.Decision.Threshold.{adjust_threshold}
use custom_waf.Decision.Outcome.{verdict, decision-verdict}
use custom_waf.Decision.Counts.{IsBalanced, zero_stats-IsBalanced, decide-IsBalanced}
use custom_waf.Decision.Stored.{reread}
use custom_waf.Decision.Expiry.{runs, blacklisted-add, prune_expired_ips_lem}
use custom_waf.Decision.Restore.{blacklist_restored, survives, Bounds, adjust_threshold-Bounds}
use custom_waf.Decision.Access.{Begins, bypass_reason_health}

instance abbrev pub hundredths : Float64 ℤ
hundredths = record {
  lit = λ m k. pos (m * 100 / 10 ^ k);
  fadd = ◌+ℤ◌;
  fsub = ◌-ℤ◌;
  fmul = λ a b. quot (a *ℤ b) 100;
  fneg = λ a. pos 0 -ℤ a;
  flt = ltb_ℤ;
  fle = leb_ℤ;
  feq = λ a b. leb_ℤ a b && leb_ℤ b a;
  fdiv = λ a b. quot (a *ℤ pos 100) (pos_part b);
  of_int = λ n. n *ℤ pos 100;
}

abbrev pub get_request : Bytes → Bytes → ParsedRequest
get_request ip path = record {
  raw_headers = [];
  client_ip = ip;
  method = bytes "GET";
  user_agent = bytes "curl";
  content_type = [];
  cookies = [];
  normalized_path = path;
  normalized_query = [];
  normalized_body = [];
}

abbrev pub alice : Bytes
alice = bytes "10.0.0.1"

abbrev pub bob : Bytes
bob = bytes "10.0.0.2"

abbrev pub config : DecisionConfig ℤ
config = record {
  block_threshold = pos 1000;
  monitor_threshold = pos 500;
  default_action = "ALLOW";
  use_behavior_score = true;
  behavior_score_weight = pos 30;
  enable_whitelist = true;
  enable_blacklist = true;
  adaptive_threshold = true;
  geo_blocking = false;
  blocked_countries = [];
}

-- Alice is allowed, Bob is banned until the time 50.
abbrev pub engine : DecisionEngine ℤ
engine = record {
  config = config;
  whitelist_ips = (alice, 0) ∷ [];
  blacklist_ips = (bob, 50) ∷ [];
  whitelist_paths = [];
  stats = zero_stats;
}

abbrev evaluation : EvaluationResult ℤ
evaluation = record {
  total_score = pos 600;
  matched_rules = [];
  decision = "MONITOR";
  bucket_scores = [];
  labels = [];
}

abbrev pub attack : BehaviorResult ℤ
attack = record {
  client_ip = bytes "10.0.0.3";
  blocked_until = pos 0;
  threat_detected = true;
  threat_types = bytes "scanner" ∷ [];
  suspicion_score = pos 200;
  recommend_action = "BLOCK";
}

abbrev page : ParsedRequest
page = get_request (bytes "10.0.0.3") (bytes "/index")

decision-verdict_example :
    (decide_with_details engine 10 evaluation page (some attack)).1.decision
    ≡ verdict config
        (is_blacklisted engine 10 page.client_ip)
        (is_whitelisted engine 10 page.client_ip page.normalized_path)
        (combined_score config evaluation (some attack)).0
        (some attack)
decision-verdict_example = decision-verdict engine 10 evaluation page (some attack)

decide-IsBalanced_example :
    IsBalanced (decide_with_details engine 10 evaluation page (some attack)).0.stats
decide-IsBalanced_example =
    decide-IsBalanced engine 10 evaluation page (some attack) zero_stats-IsBalanced

blacklisted-add_example :
    is_blacklisted (add_blacklist_ip_with_ttl engine 10 alice (pos 20)) 15 alice
    ≡ (if bytes_beq alice alice then runs 10 (pos 20) 15 else is_blacklisted engine 15 alice)
blacklisted-add_example = blacklisted-add engine 10 15 alice alice (pos 20)

prune_expired_ips_lem_example :
    let r = prune_expired_ips engine 60 in
    ((later : ℕ) (ip path : Bytes)
      → 60 ≤ later
      → (is_blacklisted r.0 later ip ≡ is_blacklisted engine later ip)
        × (is_whitelisted r.0 later ip path ≡ is_whitelisted engine later ip path))
    × (r.1 + length r.0.whitelist_ips ≡ length engine.whitelist_ips)
    × (r.2 + length r.0.blacklist_ips ≡ length engine.blacklist_ips)
unfolding lookup
prune_expired_ips_lem_example = prune_expired_ips_lem engine 60 (refl, tt) (refl, tt)

bob_not_empty : bob ≢ []
bob_not_empty e = ground arith

-- Bob is banned until the middle of the fourth second.
abbrev dated : DecisionEngine ℤ
dated = record engine { blacklist_ips = (bob, 3500000000) ∷ [] }

-- Saved, and restored two seconds later: the ban ends with the third second.
blacklist_restored_example :
    lookup bob
      (set_blacklist_entries
        (λ s. s)
        engine
        2000000000
        (reread (get_blacklist_entries dated 20))).blacklist_ips
    ≡ survives 20 2000000000 (lookup bob dated.blacklist_ips)
unfolding lookup
blacklist_restored_example =
    blacklist_restored (λ s. s) dated engine 20 2000000000 bob (refl, bob_not_empty, tt) (refl, tt)

hundredths_Bounds : Bounds ℤ
hundredths_Bounds = record { apart = refl; irreflexive = λ x. ground arith }

adjust_threshold-Bounds_example :
    ((engine.config.adaptive_threshold ≡ false) × (adjust_threshold engine (pos 0) ≡ engine))
    ⊎ ((engine.config.adaptive_threshold ≡ true)
        × (ltb_ℤ (adjust_threshold engine (pos 0)).config.block_threshold (pos 500) ≡ false)
        × (ltb_ℤ (pos 2000) (adjust_threshold engine (pos 0)).config.block_threshold ≡ false))
adjust_threshold-Bounds_example = adjust_threshold-Bounds engine (pos 0) hundredths_Bounds

-- A page whose name begins like a health check.
abbrev disguised : ParsedRequest
disguised = get_request (bytes "10.0.0.3") (bytes "/pingback.php")

bypass_reason_health_example : (bypass_reason engine 10 disguised ≡ "health") ↔ (
    ((true && is_blacklisted engine 10 disguised.client_ip) ≡ false)
    × Begins disguised.normalized_path health_check_paths)
bypass_reason_health_example = bypass_reason_health engine 10 disguised

bypassed : bypass_reason engine 10 disguised ≡ "health"
unfolding bypass_reason is_blacklisted is_health_check_path lookup bytes_beq has_prefix any
bypassed = refl
