-- ===== src/Auth/Sweep.antt =====
-- What the sweep of internal/auth/revocation.go forgets.
use custom_waf.Base.{
  ℕ, ◌+◌, ◌≤◌, ◌<◌, ◌≡◌, inl, inr, Bool, false, not, ◌&&◌, Option, none, some, arith, Bytes,
  Bytes_eq, String_eq, ℕ_eq, ltb, eqb, Option-cases, lookup,
}
use custom_waf.Base.{lookup-retain, Distinct}
use custom_waf.Decision.Verdict.{hour}
use custom_waf.Auth.Revocation.{Revoker, is_revoked, sweep}

-- The token is on the list without an expiry.
abbrev pub undated : Option ℕ → Bool
undated none = false
undated (some exp) = eqb exp 0

-- A sweep changes no answer about a token with an expiry, at the time of the sweep or later; but
-- a token that was revoked without one is no longer revoked, though it was until then.
pub sweep_answers :
    (r : Revoker) (swept now : ℕ) (jti : Bytes)
    → Distinct r
    → hour < swept
    → swept ≤ now
    → is_revoked (sweep r swept) now jti ≡ (is_revoked r now jti && not (undated (lookup jti r)))
unfolding is_revoked sweep
sweep_answers r swept now jti d old later =
    let l = lookup-retain (λ exp. not (ltb (exp + hour) swept)) jti r d in
    elim (Option-cases (lookup jti r)) [
      | inl n ↦ ground (arith, l, n)
      | inr (exp, s) ↦ ground (arith, l, s)
    ]
