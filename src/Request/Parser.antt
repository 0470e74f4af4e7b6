-- ===== src/Request/Parser.antt =====
-- internal/parser/parser.go. `trim` is `strings.TrimSpace`, `lower` is `strings.ToLower`.
use custom_waf.Base.{
  ℕ, Bool, true, false, not, ◌&&◌, ◌||◌, Option, none, some, List, [], ◌∷◌, pos, Bytes, Bytes_eq,
  String_eq, ℕ_eq, bytes, bytes_beq, if◌then◌else◌, eqb, insert, length,
}
use custom_waf.Base.{take, drop, has_prefix, index_of, any, ltb_ℤ}
use custom_waf.Request.Types.{HttpRequest, FullRequest, header_get}

pub record HttpParser : Type 0 where
  pub max_body_size : ℕ
  pub trusted_proxies : List Bytes

unfoldable pub new_http_parser : ℕ → HttpParser
new_http_parser max_body_size = record { max_body_size = max_body_size; trusted_proxies = [] }

unfoldable pub set_trusted_proxies : HttpParser → List Bytes → HttpParser
set_trusted_proxies p proxies = record p { trusted_proxies = proxies }

-- `strings.Split(s, sep)[0]`, for a separator of one byte.
unfoldable pub before : ℕ → Bytes → Bytes
before sep [] = []
before sep (c ∷ s) = let rest = before sep s in if eqb c sep then [] else c ∷ rest

-- Is the byte in the string?
unfoldable pub has_byte : ℕ → Bytes → Bool
has_byte b s = any (λ c. eqb c b) s

-- `s[:strings.LastIndex(s, ":")]`, or all of it.
unfoldable pub before_last_colon : Bytes → Bytes
unfolding has_byte
before_last_colon [] = []
before_last_colon (c ∷ s) =
    let rest = before_last_colon s in
    if has_byte b':' s then c ∷ rest else if eqb c b':' then [] else c ∷ s

-- The headers that may hold the address, in their order, after X-Forwarded-For.
abbrev pub address_headers : List Bytes
address_headers =
    bytes "X-Real-Ip" ∷ bytes "Cf-Connecting-Ip" ∷ bytes "True-Client-Ip" ∷ bytes "X-Client-Ip" ∷ []

-- The first that is not empty.
unfoldable pub first_header : HttpRequest → List Bytes → Bytes
unfolding header_get
first_header r [] = []
first_header r (h ∷ hs) =
    let rest = first_header r hs in if bytes_beq (header_get r h) [] then rest else header_get r h

-- `extractClientIP`
unfoldable pub extract_client_ip : (Bytes → Bytes) → HttpRequest → Bytes
unfolding before before_last_colon first_header header_get
extract_client_ip trim r =
    let forwarded = trim (before b',' (header_get r (bytes "X-Forwarded-For"))) in
    let named = first_header r address_headers in
    if not (bytes_beq (header_get r (bytes "X-Forwarded-For")) []) && not (bytes_beq forwarded [])
    then forwarded
    else if not (bytes_beq named [])
    then named
    else before_last_colon r.remote_addr

-- `extractCookies`: a later cookie of a name replaces an earlier one.
unfoldable pub extract_cookies : List (Bytes × Bytes) → List (Bytes × Bytes) → List (Bytes × Bytes)
extract_cookies m [] = m
extract_cookies m ((name, value) ∷ cs) = extract_cookies (insert name value m) cs

-- The parsed request before its body is read; nothing is normalized yet.
unfoldable pub parse_head : (Bytes → Bytes) → Bytes → ℕ → HttpRequest → FullRequest
unfolding extract_client_ip extract_cookies header_get
parse_head trim request_id now r = record {
  parsed = record {
    raw_headers = r.headers;
    client_ip = extract_client_ip trim r;
    method = r.method;
    user_agent = header_get r (bytes "User-Agent");
    content_type = header_get r (bytes "Content-Type");
    cookies = extract_cookies [] r.cookies;
    normalized_path = [];
    normalized_query = [];
    normalized_body = [];
  };
  request_id = request_id;
  timestamp = now;
  raw_method = r.method;
  raw_path = r.url_path;
  raw_query = r.raw_query;
  raw_body = [];
  header_count = length r.headers;
  protocol = r.proto;
  host = r.host;
  body_size = 0;
}

-- `Parse`: the parsed request and the request that goes on, whose body is what was read.
unfoldable pub parse :
    (Bytes → Bytes) → HttpParser → Bytes → ℕ → HttpRequest → Option (FullRequest × HttpRequest)
unfolding parse_head
parse trim p request_id now r =
    let head = parse_head trim request_id now r in
    if r.has_body && ltb_ℤ (pos 0) r.content_length
    then elim (r.read_body p.max_body_size) [
      | none ↦ none
      | some body ↦ some (
        record head { raw_body = body; body_size = length body },
        record r { read_body = λ n. some (take n body) },
      )
    ]
    else some (head, r)

-- `strings.Contains(s, t)`
abbrev pub is_some : {A : Type 0} → Option A → Bool
is_some none = false
is_some (some a) = true

unfoldable pub contains_bytes : Bytes → Bytes → Bool
contains_bytes s t = is_some (index_of s t)

unfoldable pub is_multipart : HttpRequest → Bool
unfolding header_get
is_multipart r = has_prefix (header_get r (bytes "Content-Type")) (bytes "multipart/form-data")

unfoldable pub is_json : HttpRequest → Bool
unfolding header_get contains_bytes
is_json r = contains_bytes (header_get r (bytes "Content-Type")) (bytes "application/json")

unfoldable pub is_xml : HttpRequest → Bool
unfolding header_get contains_bytes
is_xml r =
    contains_bytes (header_get r (bytes "Content-Type")) (bytes "application/xml")
    || contains_bytes (header_get r (bytes "Content-Type")) (bytes "text/xml")

unfoldable pub extract_auth_token : HttpRequest → Bytes
unfolding header_get
extract_auth_token r =
    let auth = header_get r (bytes "Authorization") in
    if has_prefix auth (bytes "Bearer ") then drop 7 auth else []

unfoldable pub is_secure_connection : HttpRequest → Bool
unfolding header_get
is_secure_connection r =
    r.tls
    || bytes_beq (header_get r (bytes "X-Forwarded-Proto")) (bytes "https")
    || bytes_beq (header_get r (bytes "X-Forwarded-Ssl")) (bytes "on")

abbrev pub agent_patterns : List Bytes
agent_patterns =
    bytes "sqlmap"
    ∷ bytes "nikto"
    ∷ bytes "nmap"
    ∷ bytes "masscan"
    ∷ bytes "nessus"
    ∷ bytes "openvas"
    ∷ bytes "acunetix"
    ∷ bytes "burp"
    ∷ bytes "zgrab"
    ∷ bytes "python-requests"
    ∷ bytes "curl"
    ∷ bytes "wget"
    ∷ []

-- `IsSuspiciousUserAgent` of the parser.
unfoldable pub has_suspicious_agent : (Bytes → Bytes) → HttpRequest → Bool
unfolding header_get contains_bytes
has_suspicious_agent lower r =
    any (contains_bytes (lower (header_get r (bytes "User-Agent")))) agent_patterns
