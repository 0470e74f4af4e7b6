-- ===== src/Engine/Selector.antt =====
-- internal/engine/selector.go: the inputs that a rule inspects. A map is gone through in the order
-- of its list, which is any order.
use custom_waf.Base.{
  Bool, not, ◌&&◌, Option, none, some, List, [], ◌∷◌, ◌++◌, map, Bytes, Bytes_eq, String_eq, ℕ_eq,
  bytes, bytes_beq, if◌then◌else◌, ◌==◌, lookup, insert,
}
use custom_waf.Base.{index_of}
use custom_waf.Engine.Types.{ParsedRequest, InputSel}
use custom_waf.Engine.Platform.{Platform}
use custom_waf.Engine.Filter.{is_some}

-- `strings.Join`
unfoldable pub join : Bytes → List Bytes → Bytes
join sep [] = []
join sep (x ∷ []) = x
join sep (x ∷ y ∷ l) = x ++ (sep ++ join sep (y ∷ l))

-- " k=v" for each value of a key.
unfoldable pub write_values : Bytes → List Bytes → Bytes
write_values k [] = []
write_values k (v ∷ vs) = bytes " " ++ (k ++ (bytes "=" ++ (v ++ write_values k vs)))

unfoldable pub write_form : List (Bytes × List Bytes) → Bytes
unfolding write_values
write_form [] = []
write_form ((k, vs) ∷ form) = write_values k vs ++ write_form form

-- "k: v\n" for each value of a header.
unfoldable pub write_header : Bytes → List Bytes → Bytes
write_header k [] = []
write_header k (v ∷ vs) = k ++ (bytes ": " ++ (v ++ (10 ∷ write_header k vs)))

unfoldable pub write_headers : List (Bytes × List Bytes) → Bytes
unfolding write_header
write_headers [] = []
write_headers ((k, vs) ∷ m) = write_header k vs ++ write_headers m

unfoldable pub concat_headers : ParsedRequest → Bytes
unfolding write_headers
concat_headers req = write_headers req.raw_headers

abbrev pub cookie_text : Bytes × Bytes → Bytes
cookie_text (k, v) = k ++ (bytes "=" ++ v)

unfoldable pub concat_cookies : ParsedRequest → Bytes
unfolding join
concat_cookies req = join (bytes "; ") (map cookie_text req.cookies)

abbrev pub key_of {ℓ} : {A : Type ℓ} → Bytes × A → Bytes
key_of (k, v) = k

-- The path, and the query behind a question mark if there is one.
unfoldable pub uri_of : ParsedRequest → Bytes
uri_of req =
    req.normalized_path
    ++ (if bytes_beq req.normalized_query [] then [] else bytes "?" ++ req.normalized_query)

-- `v, ok := m[k]`, with the zero value for a missing key.
abbrev pub or_empty {ℓ} : {A : Type ℓ} → Option (List A) → List A
or_empty none = []
or_empty (some l) = l

module _ {F : Type 0} (pl : Platform F) where
  unfoldable pub is_form : ParsedRequest → Bool
  is_form req =
      is_some (index_of (pl.lower req.content_type) (bytes "application/x-www-form-urlencoded"))

  -- The part of `collectArgs` behind the query, for a body that is not empty.
  unfoldable pub body_args : ParsedRequest → Bytes
  unfolding write_form is_form
  body_args req =
      let raw = bytes " " ++ req.normalized_body in
      if is_form req
      then elim (pl.parse_query req.normalized_body) [ none ↦ raw | some form ↦ write_form form ]
      else raw

  unfoldable pub collect_args : ParsedRequest → Bytes
  unfolding body_args
  collect_args req =
      req.normalized_query ++ (if bytes_beq req.normalized_body [] then [] else body_args req)

  abbrev pub names_of : Option (List (Bytes × List Bytes)) → List Bytes
  names_of none = []
  names_of (some form) = map key_of form

  unfoldable pub collect_arg_names : ParsedRequest → Bytes
  unfolding join is_form
  collect_arg_names req = join (bytes " ") (
      names_of (pl.parse_query req.normalized_query)
      ++ (if is_form req && not (bytes_beq req.normalized_body [])
          then names_of (pl.parse_query req.normalized_body)
          else []))

  -- `extractSelector`; `trim` is `strings.TrimSpace`. An empty label is dropped.
  unfoldable pub extract_selector : (Bytes → Bytes) → ParsedRequest → InputSel → Bytes × Bytes
  unfolding collect_args collect_arg_names concat_headers concat_cookies uri_of join
  extract_selector trim req s =
      if s.source == "path"
      then (bytes "path", req.normalized_path)
      else if s.source == "query"
      then (bytes "query", req.normalized_query)
      else if s.source == "uri"
      then (bytes "uri", uri_of req)
      else if s.source == "body"
      then (bytes "body", req.normalized_body)
      else if s.source == "args"
      then (bytes "args", collect_args req)
      else if s.source == "args_names"
      then (bytes "args_names", collect_arg_names req)
      else if s.source == "header"
      then (if bytes_beq s.name [] then ([], []) else (
        bytes "header:" ++ s.name,
        join (bytes "; ") (or_empty (lookup (trim s.name) req.raw_headers)),
      ))
      else if s.source == "headers_all"
      then (bytes "headers_all", concat_headers req)
      else if s.source == "header_names"
      then (bytes "header_names", join (bytes " ") (map key_of req.raw_headers))
      else if s.source == "cookie"
      then (if bytes_beq s.name []
          then ([], [])
          else (bytes "cookie:" ++ s.name, or_empty (lookup s.name req.cookies)))
      else if s.source == "cookies_all"
      then (bytes "cookies_all", concat_cookies req)
      else if s.source == "ip"
      then (bytes "ip", req.client_ip)
      else if s.source == "user_agent"
      then (bytes "user_agent", req.user_agent)
      else ([], [])

  -- The loop of `resolveInputs`.
  unfoldable pub resolve_inputs :
      (Bytes → Bytes) → ParsedRequest → List InputSel → List (Bytes × Bytes) → List (Bytes × Bytes)
  resolve_inputs trim req [] out = out
  resolve_inputs trim req (s ∷ sels) out =
      let input = extract_selector trim req s in
      resolve_inputs trim req sels
        (if bytes_beq input.0 [] then out else insert input.0 input.1 out)
