-- ===== src/Training/Text.antt =====
-- internal/training/text.go and redact.go. What they take from strings and regexp is a parameter.
use custom_waf.Base.{
  ℕ, zero, suc, ◌+◌, ◌/◌, ◌%◌, Bool, true, false, not, ◌&&◌, ◌||◌, Option, none, some, List, [],
  ◌∷◌, ◌++◌, ℤ, pos, Bytes, Bytes_eq, String_eq, ℕ_eq, bytes, bytes_beq, if◌then◌else◌, eqb, lookup,
  length,
}
use custom_waf.Base.{take, leb_ℤ, pos_part, any}
use custom_waf.Engine.Types.{EvaluationResult, MatchResult}
use custom_waf.Request.Types.{FullRequest, first_or_empty}

-- `ToLower`, `ToUpper`, `EqualFold`, `TrimSpace`; `replace_all` is `ReplaceAllString` of the
-- compiled pattern.
pub record Strings : Type 0 where
  pub lower : Bytes → Bytes
  pub upper : Bytes → Bytes
  pub equal_fold : Bytes → Bytes → Bool
  pub trim : Bytes → Bytes
  pub replace_all : Bytes → Bytes → Bytes → Bytes

abbrev pub max_text_len_default : ℕ
max_text_len_default = 1000

-- `truncate`
unfoldable pub truncate : Bytes → ℤ → Bytes
truncate s n = if leb_ℤ n (pos 0) || leb_ℤ (pos (length s)) n then s else take (pos_part n) s

-- The limit, or the default.
abbrev pub or_default_len : ℤ → ℤ
or_default_len n = if leb_ℤ n (pos 0) then pos max_text_len_default else n

-- `len(vs) > 0`
abbrev pub nonempty : List Bytes → Bool
nonempty [] = false
nonempty (v ∷ vs) = true

-- The loop over the headers, in the order of the map.
unfoldable pub fold_header : Strings → Bytes → List (Bytes × List Bytes) → Option Bytes
fold_header st name [] = none
fold_header st name ((k, vs) ∷ hs) =
    let rest = fold_header st name hs in
    if st.equal_fold k name && nonempty vs then some (first_or_empty (some vs)) else rest

abbrev pub exact_header : Option (List Bytes) → Option Bytes
exact_header none = none
exact_header (some []) = none
exact_header (some (v ∷ vs)) = some v

-- The fields that stand in for a missing header.
unfoldable pub field_header : Strings → FullRequest → Bytes → Bytes
field_header st req name =
    if bytes_beq (st.lower name) (bytes "user-agent")
    then req.parsed.user_agent
    else if bytes_beq (st.lower name) (bytes "host")
    then req.host
    else if bytes_beq (st.lower name) (bytes "content-type")
    then req.parsed.content_type
    else []

abbrev pub or_else : {A : Type 0} → Option A → A → A
or_else none a = a
or_else (some b) a = b

-- `firstHeader`
unfoldable pub first_header_value : Strings → FullRequest → Bytes → Bytes
unfolding fold_header field_header
first_header_value st req name =
    or_else (exact_header (lookup name req.parsed.raw_headers))
      (or_else (fold_header st name req.parsed.raw_headers) (field_header st req name))

-- The decimal digits before those in `acc`, on fuel; the number has fewer digits than the fuel.
unfoldable pub digits : ℕ → ℕ → Bytes → Bytes
digits zero n acc = acc
digits (suc fuel) n acc =
    let rest = digits fuel (n / 10) ((b'0' + n % 10) ∷ acc) in if eqb n 0 then acc else rest

-- `itoa`, of a length: twenty digits are enough for 64 bits.
unfoldable pub itoa : ℕ → Bytes
unfolding digits
itoa n = if eqb n 0 then bytes "0" else digits 20 n []

unfoldable pub count_byte : ℕ → Bytes → ℕ
count_byte b [] = 0
count_byte b (c ∷ s) = let rest = count_byte b s in if eqb c b then suc rest else rest

-- `summariseCookie`, with `formatLenN`
unfoldable pub summarise_cookie : Bytes → Bytes
unfolding itoa count_byte
summarise_cookie v =
    bytes "len=" ++ (itoa (length v) ++ (bytes ",n=" ++ itoa (suc (count_byte b';' v))))

abbrev pub put_front : ℕ → Option Bytes → Option Bytes
put_front c none = none
put_front c (some p) = some (c ∷ p)

-- What stands before the first blank, if there is one.
unfoldable pub scheme : Bytes → Option Bytes
scheme [] = none
scheme (c ∷ s) = let rest = put_front c (scheme s) in if eqb c b' ' then some [] else rest

-- `summariseAuth`
unfoldable pub summarise_auth : Strings → Bytes → Bytes
unfolding scheme
summarise_auth st v = elim (scheme (st.trim v)) [
  | none ↦ bytes "***"
  | some [] ↦ bytes "***"
  | some (c ∷ p) ↦ (c ∷ p) ++ bytes " ***"
]

-- Is the value in the set?
abbrev pub has_value : Bytes → List Bytes → Bool
has_value v seen = any (bytes_beq v) seen

module _ {F : Type 0} where
  -- The loop over the matches: values not seen before, joined, until the text is long enough.
  unfoldable pub join_values : ℤ → List Bytes → Bytes → List (MatchResult F) → Bytes
  join_values max_len seen b [] = b
  join_values max_len seen b (m ∷ ms) =
      let b' = (if bytes_beq b [] then b else b ++ bytes " | ") ++ m.value in
      let fresh = not (bytes_beq m.value [] || has_value m.value seen) in
      let rest =
        join_values max_len (if fresh then m.value ∷ seen else seen) (if fresh then b' else b) ms in
      if fresh && leb_ℤ max_len (pos (length b')) then b' else rest

-- A part, if it is not empty.
abbrev pub part : Bytes → Bytes → List Bytes
part prefix [] = []
part prefix (c ∷ s) = (prefix ++ (c ∷ s)) ∷ []

-- `strings.Join(parts, sep)`
unfoldable pub join : Bytes → List Bytes → Bytes
join sep [] = []
join sep (p ∷ []) = p
join sep (p ∷ q ∷ ps) = p ++ (sep ++ join sep (q ∷ ps))

-- `BuildMLText`
unfoldable pub build_ml_text : {F : Type 0} → Strings → FullRequest → EvaluationResult F → ℤ → Bytes
unfolding truncate first_header_value join_values join
build_ml_text st req ev limit =
    let max_len = or_default_len limit in
    let values = join_values max_len [] [] ev.matched_rules in
    let parts =
      part [] req.parsed.normalized_path
      ++ (part [] req.parsed.normalized_query
          ++ (part [] req.parsed.normalized_body
              ++ (part (bytes "UA: ")
                    (truncate (first_header_value st req (bytes "user-agent")) (pos 200))
                  ++ part (bytes "Referer: ")
                      (truncate (first_header_value st req (bytes "referer")) (pos 200))))) in
    if bytes_beq values []
    then truncate (join (bytes " ") parts) max_len
    else truncate values max_len

-- The patterns of redact.go and what replaces their matches, in their order.
abbrev pub redact_patterns : List (Bytes × Bytes)
redact_patterns =
    (
      bytes
          "(?i)(\"(?:password|passwd|pwd|secret|token|api[_-]?key|access[_-]?token|refresh[_-]?token|authorization|jwt)\"\\s*:\\s*\")[^\"]*(\")",
      bytes "$1***$2",
    )
    ∷ (
      bytes
          "(?i)((?:^|[?&;])(?:password|passwd|pwd|secret|token|api[_-]?key|access[_-]?token|refresh[_-]?token|authorization|jwt)=)[^&\\s#]*",
      bytes "${1}***",
    )
    ∷ (bytes "(?i)(authorization\\s*:\\s*bearer\\s+)\\S+", bytes "${1}***")
    ∷ (bytes "(?i)(authorization\\s*:\\s*basic\\s+)\\S+", bytes "${1}***")
    ∷ (bytes "(?i)((?:cookie|set-cookie)\\s*:\\s*[^=]*=)[^;\\s]+", bytes "${1}***")
    ∷ []

unfoldable pub redact_with : Strings → List (Bytes × Bytes) → Bytes → Bytes
redact_with st [] s = s
redact_with st ((re, repl) ∷ ps) s = redact_with st ps (st.replace_all re repl s)

-- `Redact`
unfoldable pub redact : Strings → Bytes → Bytes
unfolding redact_with
redact st s = if bytes_beq s [] then s else redact_with st redact_patterns s
