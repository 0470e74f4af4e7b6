-- ===== src/Tests/Requests.antt =====
-- The theorems on internal/middleware/waf.go, applied to a small firewall.
use custom_waf.Base.{
  ◌≡◌, refl, true, false, not, ◌||◌, none, some, [], ◌∷◌, arith, ℤ, pos, Bytes_eq, String_eq, ℕ_eq,
  bytes, bytes_beq, lookup,
}
use custom_waf.Base.{any}
use custom_waf.Decision.Types.{BehaviorResult}
use custom_waf.Decision.Lists.{is_blacklisted, is_whitelisted_ip, entry_active}
use custom_waf.Decision.Bypass.{should_bypass_waf}
use custom_waf.Request.Types.{HttpRequest, FullRequest, header_get}
use custom_waf.Request.Parser.{extract_client_ip, before, before_last_colon, first_header}
use custom_waf.Pipeline.Types.{Waf, Outside, WafSettings}
use custom_waf.Pipeline.Answers.{promote_ban_to_blacklist}
use custom_waf.Pipeline.Serve.{serve_http, serve_parsed, limit_request}
use custom_waf.Pipeline.Forwards.{forwards}
use custom_waf.Pipeline.Denied.{denied_unforwarded}
use custom_waf.Pipeline.DryRun.{SameLists, dry_run_serves, permanent_ban_lapses}
use custom_waf.Tests.Verdicts.{hundredths, bob, engine, attack, get_request}
use custom_waf.Ml.Client.{Reply}
use custom_waf.Tests.Rules.{plain, engine as rules}
use custom_waf.Tests.Limits.{limiter}
use custom_waf.Tests.Behaviors.{config as behavior_config}

-- Nothing is folded or decoded, the model is unreachable, and the upstream is well.
abbrev outside : Outside ℤ
outside = record {
  platform = plain;
  strings = record {
    lower = λ s. s;
    upper = λ s. s;
    equal_fold = bytes_beq;
    trim = λ s. s;
    replace_all = λ re repl s. s;
  };
  url_codec = record { query_unescape = λ s. some s; path_unescape = λ s. some s };
  codec = record { unescape = λ s. some s; clean = λ s. s };
  transport = record {
    hash = λ s. s;
    prepare = λ url text. some (bytes "no model");
    exchange = λ url text. (Reply.unreachable [], 0);
    status_text = λ code raw. raw;
  };
  upper_text = λ s. s;
  upstream = λ url req. 200;
}

abbrev settings : WafSettings ℤ
settings = record {
  ml_gray_lower = pos 300;
  ml_gray_upper = pos 700;
  ml_attack_bump = pos 500;
  ml_normal_penalty = pos 200;
  ml_confidence_minimum = pos 80;
  ml_max_text_len = pos 1000;
  enable_debug_headers = false;
  dry_run = false;
}

abbrev waf : Waf ℤ
waf = record {
  parser = record { max_body_size = 1000; trusted_proxies = [] };
  limiter = limiter;
  rules = rules;
  detector = record {
    ip_stats = [];
    session_stats = [];
    path_stats = [];
    config = behavior_config;
  };
  decisions = engine;
  client = none;
  capture = none;
  has_notifier = false;
  settings = settings;
  backend_url = bytes "http://app";
}

-- Bob's request, through a proxy that names him.
abbrev from_bob : HttpRequest
from_bob = record {
  method = bytes "GET";
  url_path = bytes "/socket.io/";
  raw_query = [];
  proto = bytes "HTTP/1.1";
  host = bytes "app";
  headers = (bytes "X-Forwarded-For", bob ∷ []) ∷ [];
  cookies = [];
  remote_addr = bytes "10.9.9.9:4000";
  content_length = pos 0;
  has_body = false;
  read_body = λ n. some [];
  tls = true;
}

denied_unforwarded_example :
    any forwards (serve_http outside (λ s. s) waf 10 (bytes "id") from_bob).1 ≡ false
unfolding extract_client_ip header_get before before_last_colon first_header is_blacklisted
    entry_active lookup bytes_beq
denied_unforwarded_example =
    denied_unforwarded outside (λ s. s) waf 10 (bytes "id") from_bob refl refl refl

abbrev dry : Waf ℤ
dry = record waf { settings = record settings { dry_run = true } }

abbrev parsed : FullRequest
parsed = record {
  parsed = get_request bob (bytes "/login");
  request_id = bytes "id";
  timestamp = 10;
  raw_method = bytes "GET";
  raw_path = bytes "/login";
  raw_query = [];
  raw_body = [];
  header_count = 1;
  protocol = bytes "HTTP/1.1";
  host = bytes "app";
  body_size = 0;
}

dry_run_serves_example :
    let r = serve_parsed outside (λ s. s) dry 10 from_bob parsed in
    (any forwards r.1 ≡ (
      should_bypass_waf engine 10 parsed.parsed
      || (is_whitelisted_ip engine 10 bob || not (limit_request outside limiter 10 parsed).1)))
    × SameLists r.0.decisions engine
dry_run_serves_example = dry_run_serves outside (λ s. s) dry 10 from_bob parsed refl

-- Bob is denied for good, and banned until 60.
abbrev ban : BehaviorResult ℤ
ban = record attack { client_ip = bob; blocked_until = pos 60 }

permanent_ban_lapses_example :
    let denying = record engine { blacklist_ips = (bob, 0) ∷ [] } in
    (is_blacklisted denying 60 bob ≡ true)
    × (is_blacklisted (promote_ban_to_blacklist denying ban 10) 60 bob ≡ false)
unfolding lookup bytes_beq
permanent_ban_lapses_example =
    permanent_ban_lapses (record engine { blacklist_ips = (bob, 0) ∷ [] }) ban 10 60 60 refl refl
      (omega arith) (omega arith)
