-- ===== src/Decision/Stored.antt =====
-- `MarshalJSON` and `UnmarshalJSON` of a list entry in internal/decision/decision.go, which the
-- lists pass on their way to the store and back. The text of a time (RFC 3339) names its whole
-- seconds: it is their number.
use custom_waf.Base.{
  ℕ, ◌*◌, ◌/◌, Option, none, some, List, [], ◌∷◌, Bytes, Bytes_eq, String_eq, ℕ_eq, if◌then◌else◌,
  eqb,
}
use custom_waf.Decision.Types.{IpListEntry}
use custom_waf.RateLimit.Types.{second}

-- No text stands for a permanent entry.
pub record StoredEntry : Type 0 where
  pub ip : Bytes
  pub expires_at : Option ℕ

unfoldable pub marshal_entry : IpListEntry → StoredEntry
marshal_entry e = record {
  ip = e.ip;
  expires_at = if eqb e.expires_at 0 then none else some (e.expires_at / second);
}

-- The zero time where there is no text.
abbrev pub parse_expiry : Option ℕ → ℕ
parse_expiry none = 0
parse_expiry (some s) = s * second

unfoldable pub unmarshal_entry : StoredEntry → IpListEntry
unmarshal_entry s = record { ip = s.ip; expires_at = parse_expiry s.expires_at }

-- A list that was written and read.
unfoldable pub reread : List IpListEntry → List IpListEntry
reread [] = []
reread (e ∷ es) = unmarshal_entry (marshal_entry e) ∷ reread es
