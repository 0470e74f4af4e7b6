-- ===== src/Auth/Jwt.antt =====
-- internal/auth/jwt.go. The signing and the parsing of tokens are golang-jwt's.
use custom_waf.Base.{
  ℕ, ◌+◌, Bool, false, not, ◌&&◌, ◌||◌, Option, none, some, List, [], ◌∷◌, Bytes, Bytes_eq,
  String_eq, ℕ_eq, bytes, bytes_beq, if◌then◌else◌, ltb, length,
}
use custom_waf.Base.{any}
use custom_waf.Auth.Revocation.{Revoker, revoke, is_revoked}

-- `Claims`; the expiry is 0 if there is none.
pub record Claims : Type 0 where
  pub user_id : ℕ
  pub username : Bytes
  pub role : Bytes
  pub id : Bytes
  pub issuer : Bytes
  pub audience : Bytes
  pub expires_at : ℕ
  pub issued_at : ℕ
  pub not_before : ℕ

-- `sign` signs with HS256; `parse` checks the signature, the times, the issuer and the audience;
-- `parse_unverified` checks nothing of the signature. `trim` and `lower` are those of strings.
pub record Jwt : Type 0 where
  pub sign : Bytes → Claims → Option Bytes
  pub parse : Bytes → ℕ → Bytes → Bytes → Bytes → Option Claims
  pub parse_unverified : Bytes → Option Claims
  pub parse_duration : Bytes → Option ℕ
  pub trim : Bytes → Bytes
  pub lower : Bytes → Bytes

pub record JwtManager : Type 0 where
  pub secret : Bytes
  pub expiry : ℕ
  pub revoker : Option Revoker

abbrev pub min_secret_len : ℕ
min_secret_len = 32

abbrev pub placeholder_secrets : List Bytes
placeholder_secrets =
    bytes "your-secret-key-change-this-in-production-256-bit-minimum"
    ∷ bytes "change-me"
    ∷ bytes "changeme"
    ∷ bytes "secret"
    ∷ bytes "please-change"
    ∷ []

-- `NewJWTManager`: no manager for a duration that does not parse or a weak secret.
unfoldable pub new_jwt_manager : Jwt → Bytes → Bytes → Option JwtManager
new_jwt_manager j secret expiry_text = elim (j.parse_duration expiry_text) [
  | none ↦ none
  | some expiry ↦
      let trimmed = j.trim secret in
      if ltb (length trimmed) min_secret_len
        || any (λ ph. bytes_beq (j.lower trimmed) (j.lower ph)) placeholder_secrets
      then none
      else some (record { secret = secret; expiry = expiry; revoker = none })
]

unfoldable pub set_revoker : JwtManager → Revoker → JwtManager
set_revoker m r = record m { revoker = some r }

abbrev pub jwt_issuer : Bytes
jwt_issuer = bytes "waf-project"

abbrev pub jwt_audience : Bytes
jwt_audience = bytes "waf-dashboard"

-- `GenerateToken`, given the fresh identifier.
unfoldable pub generate_token : Jwt → JwtManager → ℕ → Bytes → ℕ → Bytes → Bytes → Option Bytes
generate_token j m now jti user_id username role = j.sign m.secret (record {
  user_id = user_id;
  username = username;
  role = role;
  id = jti;
  issuer = jwt_issuer;
  audience = jwt_audience;
  expires_at = now + m.expiry;
  issued_at = now;
  not_before = now;
})

-- The check of the revoker, if there is one.
abbrev pub revoked_by : Option Revoker → ℕ → Bytes → Bool
revoked_by none now id = false
revoked_by (some r) now id = not (bytes_beq id []) && is_revoked r now id

-- `ValidateToken`
unfoldable pub validate_token : Jwt → JwtManager → ℕ → Bytes → Option Claims
validate_token j m now token = elim (j.parse m.secret now jwt_issuer jwt_audience token) [
  | none ↦ none
  | some claims ↦ if revoked_by m.revoker now claims.id then none else some claims
]

abbrev pub revoke_claims : Option Revoker → Option Claims → Option Revoker
revoke_claims none claims = none
revoke_claims (some r) none = some r
revoke_claims (some r) (some c) = some (revoke r c.id c.expires_at)

-- `RevokeToken`, which reads the claims of any token.
unfoldable pub revoke_token : Jwt → JwtManager → Bytes → JwtManager
revoke_token j m token = record m { revoker = revoke_claims m.revoker (j.parse_unverified token) }
