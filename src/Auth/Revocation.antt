-- ===== src/Auth/Revocation.antt =====
-- internal/auth/revocation.go: the tokens that were logged out. A time is a count of nanoseconds,
-- of which 0 is the zero time: a token without expiry. The ticker of the sweep is left out.
use custom_waf.Base.{
  ℕ, ◌+◌, Bool, false, not, ◌||◌, Option, none, some, List, [], Bytes, Bytes_eq, String_eq, ℕ_eq,
  bytes_beq, if◌then◌else◌, ltb, eqb, lookup, insert,
}
use custom_waf.Base.{retain}
use custom_waf.Decision.Verdict.{hour}

abbrev pub Revoker : Type 0
Revoker = List (Bytes × ℕ)

unfoldable pub revoke : Revoker → Bytes → ℕ → Revoker
revoke r jti expires_at = if bytes_beq jti [] then r else insert jti expires_at r

-- The entry is in force.
abbrev pub in_force : ℕ → Option ℕ → Bool
in_force now none = false
in_force now (some exp) = ltb now (exp + hour) || eqb exp 0

unfoldable pub is_revoked : Revoker → ℕ → Bytes → Bool
is_revoked r now jti = if bytes_beq jti [] then false else in_force now (lookup jti r)

-- One round of `sweepLoop`: what expired more than an hour ago goes.
unfoldable pub sweep : Revoker → ℕ → Revoker
sweep r now = retain (λ exp. not (ltb (exp + hour) now)) r
