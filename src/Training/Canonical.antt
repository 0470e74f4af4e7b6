-- ===== src/Training/Canonical.antt =====
-- internal/training/canonical.go: the text that the model was trained on. `query_unescape` and
-- `path_unescape` are net/url's, none for an error.
use custom_waf.Base.{
  not, ◌&&◌, Option, List, [], ◌∷◌, ◌++◌, ℤ, pos, Bytes, Bytes_eq, String_eq, ℕ_eq, bytes,
  bytes_beq, if◌then◌else◌,
}
use custom_waf.Request.Parser.{has_byte}
use custom_waf.Request.Types.{FullRequest}
use custom_waf.Training.Text.{
  Strings, truncate, or_default_len, first_header_value, summarise_auth, or_else,
}

pub record UrlCodec : Type 0 where
  pub query_unescape : Bytes → Option Bytes
  pub path_unescape : Bytes → Option Bytes

abbrev pub canonical_header_order : List Bytes
canonical_header_order =
    bytes "Host"
    ∷ bytes "User-Agent"
    ∷ bytes "Content-Type"
    ∷ bytes "Referer"
    ∷ bytes "X-Forwarded-For"
    ∷ bytes "X-Real-IP"
    ∷ bytes "X-Requested-With"
    ∷ bytes "Origin"
    ∷ bytes "Cookie"
    ∷ bytes "Authorization"
    ∷ []

-- `decodeOnce`
unfoldable pub decode_once : UrlCodec → Bytes → Bytes
decode_once k s =
    if has_byte b'%' s then or_else (k.query_unescape s) (or_else (k.path_unescape s) s) else s

-- A header that no rule of its own gives.
unfoldable pub plain_header : Strings → FullRequest → Bytes → Bytes
unfolding truncate first_header_value
plain_header st req lower = truncate (first_header_value st req lower) (pos 256)

-- `canonicalHeaderValue`
unfoldable pub canonical_header_value : Strings → FullRequest → Bytes → Bytes
unfolding plain_header summarise_auth
canonical_header_value st req name =
    let lower = st.lower name in
    if bytes_beq lower (bytes "host") && not (bytes_beq req.host [])
    then req.host
    else if bytes_beq lower (bytes "user-agent") && not (bytes_beq req.parsed.user_agent [])
    then truncate req.parsed.user_agent (pos 256)
    else if bytes_beq lower (bytes "content-type") && not (bytes_beq req.parsed.content_type [])
    then req.parsed.content_type
    else if bytes_beq lower (bytes "authorization")
    then (let v = first_header_value st req (bytes "authorization") in
        if bytes_beq v [] then [] else summarise_auth st v)
    else if bytes_beq lower (bytes "cookie")
    then first_header_value st req (bytes "cookie")
    else plain_header st req lower

-- The lines of the headers.
unfoldable pub header_lines : Strings → FullRequest → List Bytes → Bytes
unfolding canonical_header_value
header_lines st req [] = []
header_lines st req (name ∷ names) =
    let rest = header_lines st req names in
    let v = canonical_header_value st req name in
    if bytes_beq v [] then rest else (10 ∷ name) ++ (bytes ": " ++ (v ++ rest))

abbrev pub or_if_empty : Bytes → Bytes → Bytes
or_if_empty [] t = t
or_if_empty (c ∷ s) t = c ∷ s

-- `BuildCanonicalText`; the evaluation's result, which it does not read, is left out.
unfoldable pub build_canonical_text : Strings → UrlCodec → FullRequest → ℤ → Bytes
unfolding decode_once header_lines
build_canonical_text st k req limit =
    let method = or_if_empty (or_if_empty req.parsed.method req.raw_method) (bytes "GET") in
    let path = decode_once k (or_if_empty req.parsed.normalized_path req.raw_path) in
    let query = decode_once k (or_if_empty req.parsed.normalized_query req.raw_query) in
    let body = or_if_empty req.parsed.normalized_body req.raw_body in
    let line =
      st.upper method ++ (b' ' ∷ (if bytes_beq query [] then path else path ++ (b'?' ∷ query))) in
    let tail = if bytes_beq body [] then [] else 10 ∷ 10 ∷ decode_once k body in
    truncate (line ++ (header_lines st req canonical_header_order ++ tail)) (or_default_len limit)
