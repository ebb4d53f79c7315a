-- ===== src/Auth/Bearer.antt =====
-- Who `validateBearerAccess` of src/api/tools/backend-auth-service.ts lets in.
use dataspace_ica_ts.Common.{
  ℕ, String, ◌≡◌, ◌⊎◌, refl, true, false, arith, eq_iff, is_empty, ok, bind-ok,
}
use dataspace_ica_ts.Text.{trim, to_lower, to_upper}
use dataspace_ica_ts.Json.{Entries, field, as_string}
use dataspace_ica_ts.Config.Security.{
  SecurityEnv, SecurityConfig, load_security_config, assert_startup_guardrails, text_of,
}
use dataspace_ica_ts.Config.Laws.{IsStarted-production}
use dataspace_ica_ts.Auth.{Platform, tenant_key, epoch}
use dataspace_ica_ts.Auth.Tokens.{
  SessionClaims, TokenEnv, ParsedJwt, session_secret, properties, parse_jwt_unverified,
  signature_valid, temporal_claims_valid, decode_bearer_token, check_signed, claims_of,
  check_claims, skips_signature, validate_bearer_access,
}

-- What a token must satisfy outside the demo mode that skips the signature.
pub record IsSigned (p : Platform) (env : TokenEnv) (at : ℕ) (jwt : ParsedJwt)
    (header payload : Entries) : Type 0 where
  pub header_read : properties jwt.header ≡ ok header
  pub algorithm : to_upper (as_string (field "alg" header)) ≡ "HS256"
  pub configured : is_empty (session_secret env) ≡ false
  pub signed : signature_valid p (session_secret env) jwt ≡ true
  pub timely : temporal_claims_valid p payload at ≡ true

check_signed-ok :
    (p : Platform) (env : TokenEnv) (now : ℕ) (jwt : ParsedJwt) (header payload : Entries)
    → properties jwt.header ≡ ok header
    → properties jwt.payload ≡ ok payload
    → check_signed p env now jwt ≡ ok tt
    → IsSigned p env (epoch now) jwt header payload
unfolding check_signed
check_signed-ok p env now jwt header payload h b checked = record {
  header_read = h;
  algorithm = ground (arith, eq_iff (to_upper (as_string (field "alg" header))) "HS256");
  configured = ground arith;
  signed = ground arith;
  timely = ground arith;
}

-- The claims that are returned belong to a session token of the tenant that is asked for.
check_claims-ok :
    (p : Platform) (tenant : String) (payload : Entries) (claims : SessionClaims)
    → check_claims p tenant payload ≡ ok claims
    → (claims ≡ claims_of p payload)
      × (as_string (field "token_use" payload) ≡ "dataconv_access")
      × (is_empty claims.organization ≡ false)
      × ((is_empty tenant ≡ true) ⊎ (claims.organization ≡ tenant_key tenant))
unfolding check_claims claims_of
check_claims-ok p tenant payload claims h = (
  ground arith,
  ground (arith, eq_iff (as_string (field "token_use" payload)) "dataconv_access"),
  ground arith,
  ground (arith, eq_iff (to_lower (as_string (field "organization" payload))) (tenant_key tenant)),
)

-- The bearer token of the header and its parts.
pub record IsBearer (p : Platform) (header : String) (token : String) (jwt : ParsedJwt)
    (payload : Entries) : Type 0 where
  pub bearer : decode_bearer_token header ≡ ok token
  pub parsed : parse_jwt_unverified p token ≡ ok jwt
  pub payload_read : properties jwt.payload ≡ ok payload

check_signed-header :
    (p : Platform) (env : TokenEnv) (now : ℕ) (jwt : ParsedJwt)
    → check_signed p env now jwt ≡ ok tt
    → (header : Entries) × (properties jwt.header ≡ ok header)
unfolding check_signed
check_signed-header p env now jwt h =
    let (header, e, _) = bind-ok (properties jwt.header) _ tt h in (header, e)

-- Where the signature is not skipped, a call that returns claims was given a bearer token that has
-- three parts, names HS256, carries the MAC of its first two parts under a configured secret and has
-- times that are valid now; the claims are those of its payload, which names the use of a session
-- token and an organization, the tenant asked for, if any.
pub validate_bearer_access-ok :
    (p : Platform) (env : TokenEnv) (security : SecurityConfig) (now : ℕ) (bearer tenant : String)
    (claims : SessionClaims)
    → skips_signature security ≡ false
    → validate_bearer_access p env security now bearer tenant ≡ ok claims
    → (token : String) × (jwt : ParsedJwt) × (header : Entries) × (payload : Entries) × IsBearer p
        bearer token jwt payload
      × IsSigned p env (epoch now) jwt header payload
      × (claims ≡ claims_of p payload)
      × (as_string (field "token_use" payload) ≡ "dataconv_access")
      × (is_empty claims.organization ≡ false)
      × ((is_empty tenant ≡ true) ⊎ (claims.organization ≡ tenant_key tenant))
unfolding validate_bearer_access
validate_bearer_access-ok p env security now bearer tenant claims strict h =
    let (token, decoded, h₁) = bind-ok (decode_bearer_token bearer) _ claims h in
    let (jwt, parsed, h₂) = bind-ok (parse_jwt_unverified p token) _ claims h₁ in
    let (_, checked, h₃) = bind-ok (check_signed p env now jwt) _ claims (rw strict at h₂) in
    let (payload, b, h₄) = bind-ok (properties jwt.payload) _ claims h₃ in
    let (header, a) = check_signed-header p env now jwt checked in
    let (same, use_, named, owned) = check_claims-ok p tenant payload claims h₄ in
    (
      token,
      jwt,
      header,
      payload,
      record { bearer = decoded; parsed = parsed; payload_read = b },
      check_signed-ok p env now jwt header payload a b checked,
      same,
      use_,
      named,
      owned,
    )

-- A server whose configuration was read and passed the guardrails, with NODE_ENV `production` up
-- to case and white space around it, checks the signature of every token, whatever its environment
-- says about insecure bearers.
pub skips_signature-production :
    (env : SecurityEnv) (config : SecurityConfig)
    → load_security_config env ≡ ok config
    → assert_startup_guardrails env config ≡ ok tt
    → to_lower (trim (text_of env.node_env)) ≡ "production"
    → skips_signature config ≡ false
unfolding skips_signature
skips_signature-production env config loaded guarded production =
    rw (IsStarted-production env config (record { loaded = loaded; guarded = guarded }) production)
      refl
