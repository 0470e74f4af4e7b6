-- ===== src/Tests/Rules.antt =====
-- The theorems on internal/engine, applied to one rule on a platform with little in it.
use custom_waf.Base.{
  suc, ◌*◌, ◌≡◌, refl, true, false, none, some, [], ◌∷◌, arith, ℤ, pos, Bytes_eq, String_eq, ℕ_eq,
  bytes, bytes_beq, length, List, Bytes, if◌then◌else◌, lookup,
}
use custom_waf.Base.{All, any}
use mathlib.Core.List.Perm
use custom_waf.Engine.Tracker.{Tracker, incr, get, sweep}
use custom_waf.Engine.Counter.{get-incr, get-sweep}
use custom_waf.Engine.Order.{detect_inputs-Perm, satisfies}
use custom_waf.Engine.Detect.{detect_inputs}
use custom_waf.Engine.Filter.{is_some}
use custom_waf.Base.{ltb_ℤ, ◌+ℤ◌}
use custom_waf.Tests.Verdicts.{hundredths, get_request}
use custom_waf.Engine.Types.{Rule, TrackCfg, ParsedRequest}
use custom_waf.Engine.Platform.{Platform}
use custom_waf.Engine.Operators.{scan_word}
use custom_waf.Engine.Words.{IsLeftmost, scan_word-IsLeftmost}
use custom_waf.Engine.Evaluate.{RuleEngine, evaluate, track_step}
use custom_waf.Engine.Labelled.{IsLabelled}
use custom_waf.Engine.Tally.{IsTallied, evaluate-IsTallied}
use custom_waf.Engine.Load.{load_rules_from_json, reload_rules, install}
use custom_waf.Engine.Validate.{
  validate_rules_json, validate_loop, validate_rule, validate_body, validate_shape, validate_track,
  default_track, validate_ml, valid_severity, valid_track_scope,
}
use custom_waf.Engine.Reload.{AllReady, load-AllReady, reload_trips}

scan_word-IsLeftmost_example :
    IsLeftmost
      (bytes "or")
      (bytes "for or")
      0
      (scan_word (suc (length (bytes "for or"))) (bytes "or") (bytes "for or") 0 (bytes "for or"))
scan_word-IsLeftmost_example =
    scan_word-IsLeftmost (bytes "or") (bytes "for or") (λ e. ground arith)

-- No folding, no addresses, no expressions and no transforms.
abbrev pub plain : Platform ℤ
plain = record {
  lower = λ s. s;
  equal_fold = bytes_beq;
  parse_ip = λ s. none;
  cidr_contains = λ n ip. false;
  compile_regex = λ s. none;
  parse_float = λ s. none;
  parse_query = λ s. none;
  of_ℕ = λ n. pos (n * 100);
  entropy = λ s. pos 0;
  transform = λ s. none;
}

abbrev pub engine : RuleEngine ℤ
engine = record {
  rules = [];
  rule_cache = [];
  block_threshold = pos 1000;
  monitor_threshold = pos 500;
  ml_pred = none;
  tracker = [];
  metrics = record {
    total_evaluations = 0;
    total_matches = 0;
    total_blocks = 0;
    rule_hit_count = [];
    category_stats = [];
  };
}

-- A counter that leaves its threshold, its lifetime and its name out.
abbrev counter : TrackCfg ℤ
counter = record {
  enabled = true;
  scope = "ip";
  counter = [];
  ttl_minutes = pos 0;
  threshold = pos 0;
  on_threshold_score = pos 500;
  on_threshold_labels = bytes "repeat" ∷ [];
}

abbrev admin_rule : Rule ℤ
admin_rule = record {
  id = bytes "R1";
  version = bytes "1";
  enabled = true;
  info = record { category = bytes "scanner"; severity = "high"; description = bytes "admin page" };
  when = record {
    methods = [];
    path_prefix = [];
    path_exclude = [];
    min_score = pos 0;
    max_score = pos 0;
    require_labels = [];
    exclude_labels = [];
  };
  inspect = record { source = "path"; name = [] } ∷ [];
  transforms = [];
  detect = record {
    logic = "any";
    patterns =
        record {
          type = "starts_with";
          value = bytes "/admin";
          values = [];
          flags = [];
          negate = false;
        }
        ∷ [];
  };
  action = record {
    score = pos 300;
    labels = bytes "probe" ∷ [];
    log = true;
    block = false;
    ml_confirm = none;
    track = some counter;
  };
  except = record { ips = []; paths = []; path_prefixes = []; user_agents = []; labels = [] };
  compiled = record { regexes = []; wordlists = []; numerics = []; sev_mul = pos 0 };
}

abbrev loaded : RuleEngine ℤ
loaded = record engine {
  rules = record admin_rule { compiled = record (admin_rule.compiled) { sev_mul = pos 150 } } ∷ [];
}

abbrev page : ParsedRequest
page = get_request (bytes "10.0.0.1") (bytes "/admin/users")

evaluate-IsTallied_example :
    let r = evaluate plain (λ s. s) loaded 0 page in
    IsTallied plain loaded.metrics.rule_hit_count
      (record { result = r.1; tracker = r.0.tracker; metrics = r.0.metrics })
    × IsLabelled plain loaded.ml_pred page loaded.rules r.1.matched_rules r.1.labels
evaluate-IsTallied_example = evaluate-IsTallied plain (λ s. s) loaded 0 page

load-AllReady_example :
    AllReady
      (λ s. s)
      plain
      (load_rules_from_json (λ s. s) plain engine (some (admin_rule ∷ []))).0.rules
load-AllReady_example = load-AllReady (λ s. s) plain engine (some (admin_rule ∷ [])) tt

reload_trips_example :
    All
      (λ r. (track_step plain r.action.track page 0 (pos 0, []) []).0 ≡ true)
      (reload_rules (λ s. s) plain engine (some (admin_rule ∷ []))).0.rules
unfolding reload_rules install validate_rules_json validate_loop validate_rule validate_body
    validate_shape validate_track default_track validate_ml valid_severity valid_track_scope
    bytes_beq any
reload_trips_example =
    reload_trips (λ s. s) plain engine admin_rule counter refl refl refl refl page 0 (pos 0) [] []

abbrev one_hit : Tracker
one_hit = (bytes "ip:R1:10.0.0.1", record { count = 4; expire_at = pos 100 }) ∷ []

get-incr_example :
    get (incr one_hit 50 (bytes "ip:R1:10.0.0.1") (pos 60)).0 105 (bytes "ip:R1:10.0.0.1") ≡ (
      if bytes_beq (bytes "ip:R1:10.0.0.1") (bytes "ip:R1:10.0.0.1")
      then (if ltb_ℤ (pos 50 +ℤ pos 60) (pos 105)
          then 0
          else suc (get one_hit 50 (bytes "ip:R1:10.0.0.1")))
      else get one_hit 105 (bytes "ip:R1:10.0.0.1"))
get-incr_example =
    get-incr one_hit 50 105 (bytes "ip:R1:10.0.0.1") (bytes "ip:R1:10.0.0.1") (pos 60)

get-sweep_example :
    get (sweep one_hit 50) 60 (bytes "ip:R1:10.0.0.1") ≡ get one_hit 60 (bytes "ip:R1:10.0.0.1")
unfolding lookup
get-sweep_example = get-sweep one_hit 50 60 (bytes "ip:R1:10.0.0.1") (refl, tt) (omega arith)

abbrev two_inputs : List (Bytes × Bytes)
two_inputs = (bytes "path", bytes "/admin") ∷ (bytes "query", bytes "a=1") ∷ []

abbrev two_inputs_swapped : List (Bytes × Bytes)
two_inputs_swapped = (bytes "query", bytes "a=1") ∷ (bytes "path", bytes "/admin") ∷ []

detect_inputs-Perm_example :
    is_some (detect_inputs plain admin_rule two_inputs)
    ≡ any (satisfies plain admin_rule) two_inputs_swapped
detect_inputs-Perm_example =
    detect_inputs-Perm plain admin_rule two_inputs two_inputs_swapped
      (Perm.swap (bytes "query", bytes "a=1") (bytes "path", bytes "/admin") [])
