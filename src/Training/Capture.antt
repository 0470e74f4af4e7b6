-- ===== src/Training/Capture.antt =====
-- internal/training/logger.go: what is captured for training. The writer's goroutine, which moves
-- the buffered records to files, is left out but for the place it frees in the buffer.
use custom_waf.Base.{
  ℕ, suc, ◌/◌, String, Bool, not, ◌&&◌, ◌||◌, List, [], ◌∷◌, ◌++◌, ℤ, pos, Bytes, Bytes_eq,
  String_eq, ℕ_eq, bytes, bytes_beq, if◌then◌else◌, ◌==◌, ltb, leb, eqb, insert, length,
}
use custom_waf.Base.{has_prefix, has_suffix, any, leb_ℤ, pos_part}
use custom_waf.Engine.Types.{EvaluationResult, MatchResult}
use custom_waf.Request.Types.{FullRequest}
use custom_waf.Training.Text.{
  Strings, truncate, redact, first_header_value, summarise_cookie, summarise_auth, has_value,
  max_text_len_default,
}
use custom_waf.Training.Canonical.{UrlCodec, build_canonical_text}

pub record CaptureConfig : Type 0 where
  pub enabled : Bool
  pub log_path : Bytes
  pub max_text_len : ℤ
  pub buffer_size : ℤ
  pub skip_path_prefixes : List Bytes

pub record TrainingRecord (F : Type 0) : Type 0 where
  pub ts : ℕ
  pub request_id : Bytes
  pub text : Bytes
  pub label : String
  pub method : Bytes
  pub path : Bytes
  pub query_len : ℕ
  pub body_len : ℕ
  pub content_type : Bytes
  pub user_agent : Bytes
  pub headers : List (Bytes × Bytes)
  pub client_ip : Bytes
  pub decision : String
  pub rule_score : F
  pub matched_rule_ids : List Bytes
  pub matched_categories : List Bytes
  pub response_status : ℕ
  pub latency_us : ℕ

pub record CaptureLogger (F : Type 0) : Type 0 where
  pub enabled : Bool
  pub max_text_len : ℤ
  pub extra_skip_prefixes : List Bytes
  pub capacity : ℕ
  pub buffered : List (TrainingRecord F)
  pub dropped : ℕ

abbrev pub static_suffixes : List Bytes
static_suffixes =
    bytes ".js"
    ∷ bytes ".mjs"
    ∷ bytes ".css"
    ∷ bytes ".map"
    ∷ bytes ".png"
    ∷ bytes ".jpg"
    ∷ bytes ".jpeg"
    ∷ bytes ".gif"
    ∷ bytes ".webp"
    ∷ bytes ".svg"
    ∷ bytes ".ico"
    ∷ bytes ".bmp"
    ∷ bytes ".woff"
    ∷ bytes ".woff2"
    ∷ bytes ".ttf"
    ∷ bytes ".eot"
    ∷ bytes ".otf"
    ∷ bytes ".mp3"
    ∷ bytes ".mp4"
    ∷ bytes ".wav"
    ∷ bytes ".webm"
    ∷ bytes ".ogg"
    ∷ bytes ".pdf"
    ∷ []

abbrev pub infra_prefixes : List Bytes
infra_prefixes =
    bytes "/health"
    ∷ bytes "/healthz"
    ∷ bytes "/ping"
    ∷ bytes "/status"
    ∷ bytes "/metrics"
    ∷ bytes "/dashboard"
    ∷ bytes "/waf-api/"
    ∷ bytes "/login.html"
    ∷ bytes "/socket.io/"
    ∷ bytes "/sockjs-node/"
    ∷ bytes "/_ws/"
    ∷ bytes "/ws/"
    ∷ bytes "/assets/"
    ∷ bytes "/public/"
    ∷ bytes "/static/"
    ∷ bytes "/robots.txt"
    ∷ bytes "/favicon.ico"
    ∷ bytes "/sitemap.xml"
    ∷ bytes "/.well-known/"
    ∷ []

-- `shouldSkipBuiltin`
unfoldable pub should_skip_builtin : Strings → Bytes → Bool
should_skip_builtin st path =
    bytes_beq path []
    || any (has_suffix (st.lower path)) static_suffixes
    || any (has_prefix path) infra_prefixes

-- `deriveLabel`; the decisions are upper-case already.
unfoldable pub derive_label : String → String
derive_label decision = if decision == "BLOCK" then "block" else "allow"

abbrev pub captured_headers : List Bytes
captured_headers =
    bytes "user-agent"
    ∷ bytes "referer"
    ∷ bytes "accept"
    ∷ bytes "accept-language"
    ∷ bytes "accept-encoding"
    ∷ bytes "content-type"
    ∷ bytes "host"
    ∷ bytes "origin"
    ∷ bytes "x-forwarded-for"
    ∷ bytes "x-real-ip"
    ∷ bytes "x-requested-with"
    ∷ []

-- An entry, if the value is not empty.
abbrev pub note : Bytes → Bytes → Bytes → List (Bytes × Bytes) → List (Bytes × Bytes)
note name [] shown m = m
note name (c ∷ v) shown m = insert name shown m

unfoldable pub capture_each :
    Strings → FullRequest → List Bytes → List (Bytes × Bytes) → List (Bytes × Bytes)
unfolding first_header_value truncate
capture_each st req [] m = m
capture_each st req (name ∷ names) m =
    let v = first_header_value st req name in
    capture_each st req names (note name v (truncate v (pos 256)) m)

-- `CaptureHeaders`
unfoldable pub capture_headers : Strings → FullRequest → List (Bytes × Bytes)
unfolding capture_each first_header_value summarise_cookie summarise_auth
capture_headers st req =
    let cookie = first_header_value st req (bytes "cookie") in
    let auth = first_header_value st req (bytes "authorization") in
    let all_headers = note (bytes "authorization") auth (summarise_auth st auth) (
      note (bytes "cookie") cookie (summarise_cookie cookie)
        (capture_each st req captured_headers [])) in
    if leb (length req.parsed.raw_headers) 0 then [] else all_headers

-- What is not empty and was not seen, in order.
unfoldable pub distinct_values : List Bytes → List Bytes → List Bytes
distinct_values seen [] = []
distinct_values seen (v ∷ vs) =
    let fresh = not (bytes_beq v []) && not (has_value v seen) in
    let rest = distinct_values (if fresh then v ∷ seen else seen) vs in
    if fresh then v ∷ rest else rest

module _ {F : Type 0} where
  -- `NewLogger`, where the file can be opened.
  unfoldable pub new_capture_logger : CaptureConfig → CaptureLogger F
  new_capture_logger cfg = record {
    enabled = cfg.enabled && not (bytes_beq cfg.log_path []);
    max_text_len =
        if leb_ℤ cfg.max_text_len (pos 0) then pos max_text_len_default else cfg.max_text_len;
    extra_skip_prefixes = cfg.skip_path_prefixes;
    capacity = if leb_ℤ cfg.buffer_size (pos 0) then 4096 else pos_part cfg.buffer_size;
    buffered = [];
    dropped = 0;
  }

  -- `ShouldSkip`
  unfoldable pub should_skip : Strings → CaptureLogger F → Bytes → Bool
  unfolding should_skip_builtin
  should_skip st l path =
      should_skip_builtin st path
      || any (λ p. not (bytes_beq p []) && has_prefix path p) l.extra_skip_prefixes

  abbrev pub rule_ids : List (MatchResult F) → List Bytes
  rule_ids [] = []
  rule_ids (m ∷ ms) = m.rule_id ∷ rule_ids ms

  abbrev pub categories : List (MatchResult F) → List Bytes
  categories [] = []
  categories (m ∷ ms) = m.category ∷ categories ms

  -- `Log`: a full buffer drops the record. A latency is in nanoseconds.
  unfoldable pub log_request :
      Strings
      → UrlCodec
      → CaptureLogger F
      → ℕ
      → FullRequest
      → EvaluationResult F
      → String
      → ℕ
      → ℕ
      → CaptureLogger F
  unfolding derive_label capture_headers distinct_values
  log_request st k l now req ev decision status latency =
      let text = redact st (build_canonical_text st k req l.max_text_len) in
      let rec : TrainingRecord F = record {
        ts = if eqb req.timestamp 0 then now else req.timestamp;
        request_id = req.request_id;
        text = text;
        label = derive_label decision;
        method = req.parsed.method;
        path = req.parsed.normalized_path;
        query_len = length req.parsed.normalized_query;
        body_len = req.body_size;
        content_type = req.parsed.content_type;
        user_agent = truncate (redact st req.parsed.user_agent) (pos 256);
        headers = capture_headers st req;
        client_ip = req.parsed.client_ip;
        decision = decision;
        rule_score = ev.total_score;
        matched_rule_ids = distinct_values [] (rule_ids ev.matched_rules);
        matched_categories = distinct_values [] (categories ev.matched_rules);
        response_status = status;
        latency_us = latency / 1000;
      } in
      if not l.enabled || bytes_beq text []
      then l
      else if ltb (length l.buffered) l.capacity
      then record l { buffered = l.buffered ++ (rec ∷ []) }
      else record l { dropped = suc l.dropped }
