-- ===== src/Engine/Operators.antt =====
-- internal/engine/operators.go: the leaves of a rule's detection, and its compilation.
use custom_waf.Base.{
  ℕ, zero, suc, ◌+◌, ◌-◌, Bool, true, false, not, ◌&&◌, ◌||◌, Option, none, some, List, [], ◌∷◌, ℤ,
  pos, negsuc, Bytes, Bytes_eq, String_eq, ℕ_eq, bytes_beq, if◌then◌else◌, ◌==◌, leb, eqb, length,
  Float64,
}
use custom_waf.Base.{has_prefix, has_suffix, index_of, drop, get_elem?, any}
use custom_waf.Engine.Types.{Pattern, Rule}
use custom_waf.Engine.Platform.{Platform}

-- A match and its offset.
abbrev pub Hit : Type 0
Hit = Bool × ℤ

abbrev pub miss : Hit
miss = (false, negsuc 0)

abbrev pub at : ℕ → Hit
at i = (true, pos i)

-- The result of a negated pattern.
abbrev pub negated : Bool → Hit
negated true = miss
negated false = at 0

abbrev pub found_at : Option ℕ → Hit
found_at none = miss
found_at (some i) = at i

unfoldable pub op_regex : List (Option (Bytes → Option ℕ)) → ℕ → Bytes → Hit
op_regex regexes idx input = elim (get_elem? regexes idx) [
  | none ↦ miss
  | some r ↦ elim r [ none ↦ miss | some find ↦ found_at (find input) ]
]

unfoldable pub op_contains : Bytes → Bytes → Hit
op_contains needle input = if bytes_beq needle [] then miss else found_at (index_of input needle)

unfoldable pub op_starts_with : Bytes → Bytes → Hit
op_starts_with prefix input =
    if bytes_beq prefix [] then miss else if has_prefix input prefix then at 0 else miss

unfoldable pub op_ends_with : Bytes → Bytes → Hit
op_ends_with suffix input =
    if bytes_beq suffix []
    then miss
    else if has_suffix input suffix
    then at (length input - length suffix)
    else miss

unfoldable pub op_equals : Bytes → Bytes → Hit
op_equals want input = if bytes_beq want input then at 0 else miss

unfoldable pub is_alnum : ℕ → Bool
is_alnum c =
    (leb b'a' c && leb c b'z')
    || ((leb b'A' c && leb c b'Z') || ((leb b'0' c && leb c b'9') || eqb c b'_'))

-- The byte before the position, if there is one, is no word character.
abbrev pub free : Option ℕ → Bool
free none = true
free (some c) = not (is_alnum c)

unfoldable pub is_word_boundary : Bytes → ℕ → ℕ → Bool
is_word_boundary s start len =
    (eqb start 0 || free (get_elem? s (start - 1))) && free (get_elem? s (start + len))

-- The inner loops for one word, from the position `i` on: the leftmost occurrence in `rest`, the
-- input from `i` on, and if it is no whole word the search goes on one byte behind it.
unfoldable pub scan_word : ℕ → Bytes → Bytes → ℕ → Bytes → Option ℕ
scan_word zero w input i rest = none
scan_word (suc fuel) w input i rest = elim (index_of rest w) [
  | none ↦ none
  | some k ↦ elim (is_word_boundary input (i + k) (length w)) [
    | true ↦ some (i + k)
    | false ↦ scan_word fuel w input (i + k + 1) (drop (k + 1) rest)
  ]
]

-- The loop over the words; an empty word is skipped.
unfoldable pub scan_words : List Bytes → Bytes → Hit
unfolding scan_word
scan_words [] input = miss
scan_words (w ∷ words) input =
    let rest = scan_words words input in
    if bytes_beq w []
    then rest
    else elim (scan_word (suc (length input)) w input 0 input) [ none ↦ rest | some i ↦ at i ]

unfoldable pub op_wordlist : List (List Bytes) → ℕ → Bytes → Hit
unfolding scan_words
op_wordlist wordlists idx input = elim (get_elem? wordlists idx) [
  | none ↦ miss
  | some words ↦ scan_words words input
]

-- `strings.Contains(s, "/")` and the like, for one byte.
unfoldable pub contains_byte : ℕ → Bytes → Bool
contains_byte c s = any (λ x. eqb x c) s

abbrev pub same_address : Option Bytes → Bytes → Bool
same_address none ip = false
same_address (some a) ip = bytes_beq a ip

-- The entries of an `ip_match`: its values, or else its one value.
unfoldable pub candidates : Pattern → List Bytes
candidates p = elim p.values [
  | [] ↦ if bytes_beq p.value [] then [] else p.value ∷ []
  | v ∷ vs ↦ v ∷ vs
]

module _ {F : Type 0} ⦃fl : Float64 F⦄ (pl : Platform F) where
  unfoldable pub op_entropy_gt : List F → ℕ → Bytes → Hit
  op_entropy_gt numerics idx input = elim (get_elem? numerics idx) [
    | none ↦ miss
    | some thresh ↦ if fl.flt thresh (pl.entropy input) then at 0 else miss
  ]

  unfoldable pub op_length_gt : List F → ℕ → Bytes → Hit
  op_length_gt numerics idx input = elim (get_elem? numerics idx) [
    | none ↦ miss
    | some n ↦ if fl.flt n (pl.of_ℕ (length input)) then at 0 else miss
  ]

  unfoldable pub op_length_lt : List F → ℕ → Bytes → Hit
  op_length_lt numerics idx input = elim (get_elem? numerics idx) [
    | none ↦ miss
    | some n ↦ if fl.flt (pl.of_ℕ (length input)) n then at 0 else miss
  ]

  -- An entry with a slash is a network, any other an address.
  unfoldable pub ip_entry_matches : Bytes → Bytes → Bool
  ip_entry_matches ip entry =
      if contains_byte b'/' entry
      then pl.cidr_contains entry ip
      else same_address (pl.parse_ip entry) ip

  unfoldable pub op_ip_match : Pattern → Bytes → Hit
  op_ip_match p input = if bytes_beq input [] then miss else elim (pl.parse_ip input) [
    | none ↦ miss
    | some ip ↦ if any (ip_entry_matches ip) (candidates p) then at 0 else miss
  ]

  -- `matchPattern`, before the negation; `none` for a type that is not known.
  unfoldable pub match_type : Rule F → ℕ → Pattern → Bytes → Option Hit
  match_type rule idx p input =
      if p.type == "regex"
      then some (op_regex rule.compiled.regexes idx input)
      else if p.type == "contains"
      then some (op_contains p.value input)
      else if p.type == "starts_with"
      then some (op_starts_with p.value input)
      else if p.type == "ends_with"
      then some (op_ends_with p.value input)
      else if p.type == "equals"
      then some (op_equals p.value input)
      else if p.type == "wordlist"
      then some (op_wordlist rule.compiled.wordlists idx input)
      else if p.type == "entropy_gt"
      then some (op_entropy_gt rule.compiled.numerics idx input)
      else if p.type == "length_gt"
      then some (op_length_gt rule.compiled.numerics idx input)
      else if p.type == "length_lt"
      then some (op_length_lt rule.compiled.numerics idx input)
      else if p.type == "ip_match"
      then some (op_ip_match p input)
      else none

  unfoldable pub match_pattern : Rule F → ℕ → Pattern → Bytes → Hit
  match_pattern rule idx p input = elim (match_type rule idx p input) [
    | none ↦ miss
    | some hit ↦ if p.negate then negated hit.0 else hit
  ]
