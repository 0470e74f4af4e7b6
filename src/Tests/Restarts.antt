-- ===== src/Tests/Restarts.antt =====
-- The theorems on the live log of internal/api and the revocations of internal/auth, applied to
-- small ones.
use custom_waf.Base.{
  ℕ, ◌≡◌, refl, not, ◌&&◌, Option, none, some, List, [], ◌∷◌, arith, Bytes, Bytes_eq, String_eq,
  ℕ_eq, bytes, bytes_beq, if◌then◌else◌, eqb, lookup, length,
}
use custom_waf.Api.Ring.{scanned, restore_from_file, new_log_ring}
use custom_waf.Api.Restored.{replay, restore_replays}
use custom_waf.Auth.Revocation.{Revoker, is_revoked, sweep}
use custom_waf.Auth.Sweep.{undated, sweep_answers}

-- Lines that begin with a brace decode to their lengths.
abbrev decode : Bytes → Option ℕ
decode [] = none
decode (c ∷ s) = if eqb c b'{' then some (length s) else none

abbrev lines : List Bytes
lines = bytes "{a}" ∷ [] ∷ bytes "broken" ∷ bytes "{}" ∷ []

restore_replays_example :
    let replayed = replay decode new_log_ring lines in
    restore_from_file decode new_log_ring (bytes "waf.log") (scanned lines)
    ≡ (replayed, some (length replayed.buf))
unfolding bytes_beq
restore_replays_example = restore_replays decode new_log_ring (bytes "waf.log") lines refl

-- A token that was revoked without an expiry.
abbrev revoked : Revoker
revoked = (bytes "token", 0) ∷ []

sweep_answers_example : is_revoked (sweep revoked 4000000000000) 4000000000000 (bytes "token") ≡ (
    is_revoked revoked 4000000000000 (bytes "token")
    && not (undated (lookup (bytes "token") revoked)))
unfolding lookup
sweep_answers_example =
    sweep_answers revoked 4000000000000 4000000000000 (bytes "token") (refl, tt) (omega arith)
      (omega arith)
