-- ===== src/Engine/Platform.antt =====
-- What internal/engine takes from Go's libraries and does not implement: case folding, addresses,
-- regular expressions, query strings, number parsing and logarithms.
use custom_waf.Base.{ℕ, Bool, Option, List, Bytes, Bytes_eq, String_eq, ℕ_eq}

pub record Platform (F : Type 0) : Type 0 where
  -- `strings.ToLower`, `strings.EqualFold`
  pub lower : Bytes → Bytes
  pub equal_fold : Bytes → Bytes → Bool
  -- `net.ParseIP`, as the sixteen bytes that `Equal` compares
  pub parse_ip : Bytes → Option Bytes
  -- `net.ParseCIDR` gives a network, and it contains the address
  pub cidr_contains : Bytes → Bytes → Bool
  -- `regexp.Compile`; a compiled expression finds the start of its first match
  pub compile_regex : Bytes → Option (Bytes → Option ℕ)
  -- `strconv.ParseFloat`
  pub parse_float : Bytes → Option F
  -- `url.ParseQuery`
  pub parse_query : Bytes → Option (List (Bytes × List Bytes))
  -- `float64(n)`
  pub of_ℕ : ℕ → F
  -- `shannonEntropy`, a sum of logarithms
  pub entropy : Bytes → F
  -- the table of transforms
  pub transform : Bytes → Option (Bytes → Bytes)
