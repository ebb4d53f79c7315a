-- ===== src/Auth/Tokens.antt =====
-- Session tokens: `issueAccessToken` and `validateBearerAccess` of
-- src/api/tools/backend-auth-service.ts.
use Prim.Native.Char.{code}
use Prim.Native.String.{[], ◌∷◌}
use dataspace_ica_ts.Common.{
  ℕ, zero, suc, ◌+◌, String, Bool, true, false, not, ◌&&◌, ◌||◌, Option, none, some, List, [], ◌∷◌,
  ◌++◌, map, keep, ◌==◌, ◌|||◌, eqb, ltb, is_empty, if◌then◌else◌, Result, ok, throw, ◌>>=◌, ◌>>◌,
  reject_if,
}
use dataspace_ica_ts.Text.{trim, to_lower, to_upper, split, join}
use dataspace_ica_ts.Json.{
  Json, null, bool, num, str, arr, cons, nil, obj, Entries, end, field, as_string, as_items, object,
  array, if_text,
}
use dataspace_ica_ts.Config.Security.{SecurityConfig, is_demo}
use dataspace_ica_ts.Config.Catalogs.{dedupe}
use dataspace_ica_ts.Auth.{Platform, tenant_key, epoch}

pub record SessionClaims : Type 0 where
  pub iss : String
  pub sub : String
  pub aud : String
  pub iat : ℕ
  pub exp : ℕ
  pub jti : String
  pub organization : String
  pub scope : String
  pub scopes : List String
  pub client_id : String

-- What the service reads from the environment, unset variables empty.
pub record TokenEnv : Type 0 where
  pub ica_exchange_session_token_secret : String
  pub exchange_session_token_secret : String
  pub ica_auth_session_token_secret : String
  pub issuer_did : String
  pub audience_did : String
  -- `Number.parseInt(process.env.ICA_AUTH_ACCESS_TOKEN_TTL_SECONDS || '900', 10) || 900`
  pub ttl_seconds : ℕ

unfoldable pub session_secret : TokenEnv → String
session_secret env = trim (
    env.ica_exchange_session_token_secret ||| env.exchange_session_token_secret
    ||| env.ica_auth_session_token_secret)

pub record ParsedJwt : Type 0 where
  pub header : Json
  pub payload : Json
  pub signed_input : String
  pub signature : String

-- The properties of a JSON value, as `value.k` reads them: `null` has none and throws.
unfoldable pub properties : Json → Result Entries
properties null = throw "Cannot read properties of null"
properties (obj es) = ok es
properties _ = ok end

unfoldable pub decode_part : Platform → String → Result Json
decode_part p text = elim (p.decode_json text) [
  | none ↦ throw "Invalid JWT encoding."
  | some json ↦ ok json
]

parse_parts : Platform → List String → Result ParsedJwt
unfolding decode_part
parse_parts p (h ∷ (b ∷ (s ∷ []))) = do
  header ← decode_part p h
  payload ← decode_part p b
  ok (record {
    header = header;
    payload = payload;
    signed_input = join "" (h ∷ "." ∷ b ∷ []);
    signature = s;
  })
parse_parts p _ = throw "JWT must have exactly 3 parts."

unfoldable pub parse_jwt_unverified : Platform → String → Result ParsedJwt
unfolding parse_parts
parse_jwt_unverified p token = parse_parts p (split 46 (trim token))

unfoldable pub bytes_equal : List ℕ → List ℕ → Bool
bytes_equal [] [] = true
bytes_equal (a ∷ as') (b ∷ bs) = eqb a b && bytes_equal as' bs
bytes_equal _ _ = false

unfoldable pub signature_valid : Platform → String → ParsedJwt → Bool
unfolding bytes_equal
signature_valid p secret jwt =
    bytes_equal (p.hmac_sha256 secret jwt.signed_input) (p.from_base64url jwt.signature)

-- `Number([value])`, which reads the text of the value.
unfoldable pub number_of_element : Platform → Json → ℕ
number_of_element p (num n) = n
number_of_element p (str s) = p.number_of_text s
number_of_element p (arr (cons v nil)) = number_of_element p v
number_of_element p _ = 0

unfoldable pub to_epoch : Platform → Option Json → ℕ
unfolding number_of_element
to_epoch p (some (num n)) = n
to_epoch p (some (str s)) = p.number_of_text s
to_epoch p (some (bool true)) = 1
to_epoch p (some (arr (cons v nil))) = number_of_element p v
to_epoch p _ = 0

-- Clocks may differ by 60 seconds. `exp < now - 60` is written without the subtraction.
unfoldable pub temporal_claims_valid : Platform → Entries → ℕ → Bool
unfolding to_epoch
temporal_claims_valid p payload now =
    let exp = to_epoch p (field "exp" payload) in
    let nbf = to_epoch p (field "nbf" payload) in
    let iat = to_epoch p (field "iat" payload) in
    not (eqb exp 0)
    && not (ltb (exp + 60) now)
    && not (ltb (now + 60) nbf)
    && not (ltb (now + 60) iat)

drop_chars : ℕ → String → String
drop_chars zero s = s
drop_chars (suc n) [] = ""
drop_chars (suc n) (c ∷ s) = drop_chars n s

has_prefix : String → String → Bool
has_prefix [] s = true
has_prefix (c ∷ p) [] = false
has_prefix (c ∷ p) (d ∷ s) = eqb (code c) (code d) && has_prefix p s

-- `decodeBearerToken`, of the Authorization header.
unfoldable pub decode_bearer_token : String → Result String
unfolding has_prefix drop_chars
decode_bearer_token header = do
  let value = trim header
  reject_if (not (has_prefix "bearer " (to_lower value))) "Bearer token required."
  let token = trim (drop_chars 7 value)
  reject_if (is_empty token) "Bearer token required."
  ok token

nonempty : List String → List String
nonempty texts = keep (λ s. not (is_empty s)) texts

unfoldable pub parse_scopes : Entries → List String
unfolding nonempty dedupe
parse_scopes payload = dedupe (
    nonempty (map trim (split 32 (as_string (field "scope" payload))))
    ++ nonempty (map (λ item. as_string (some item)) (as_items (field "scopes" payload))))

-- The three checks that demo mode may skip.
unfoldable pub check_signed : Platform → TokenEnv → ℕ → ParsedJwt → Result (Unit {0})
unfolding session_secret signature_valid temporal_claims_valid properties
check_signed p env now jwt = do
  header ← properties jwt.header
  reject_if (not (to_upper (as_string (field "alg" header)) == "HS256"))
      "Unsupported session token algorithm."
  reject_if (is_empty (session_secret env) || not (signature_valid p (session_secret env) jwt))
      "Invalid session token signature."
  payload ← properties jwt.payload
  reject_if (not (temporal_claims_valid p payload (epoch now))) "Session token expired or invalid."

unfoldable pub claims_of : Platform → Entries → SessionClaims
unfolding to_epoch parse_scopes
claims_of p payload = record {
  iss = as_string (field "iss" payload);
  sub = as_string (field "sub" payload);
  aud = as_string (field "aud" payload);
  iat = to_epoch p (field "iat" payload);
  exp = to_epoch p (field "exp" payload);
  jti = as_string (field "jti" payload);
  organization = to_lower (as_string (field "organization" payload));
  scope = as_string (field "scope" payload);
  scopes = parse_scopes payload;
  client_id = as_string (field "client_id" payload);
}

unfoldable pub check_claims : Platform → String → Entries → Result SessionClaims
unfolding claims_of tenant_key
check_claims p expected_tenant payload = do
  reject_if (not (as_string (field "token_use" payload) == "dataconv_access"))
      "Invalid session token use."
  let organization = to_lower (as_string (field "organization" payload))
  reject_if (is_empty organization) "Session token organization claim is required."
  reject_if (not (is_empty expected_tenant) && not (organization == tenant_key expected_tenant))
      "Bearer token organization does not match tenantId path."
  ok (claims_of p payload)

unfoldable pub skips_signature : SecurityConfig → Bool
skips_signature security = is_demo security.security_mode && security.demo_allow_insecure_bearer

-- `validateBearerAccess`; an empty tenant expects none.
unfoldable pub validate_bearer_access :
    Platform → TokenEnv → SecurityConfig → ℕ → String → String → Result SessionClaims
unfolding decode_bearer_token parse_jwt_unverified check_claims skips_signature properties
validate_bearer_access p env security now header expected_tenant = do
  token ← decode_bearer_token header
  jwt ← parse_jwt_unverified p token
  if skips_signature security then ok tt else check_signed p env now jwt
  payload ← properties jwt.payload
  check_claims p expected_tenant payload

-- `buildJwt`
unfoldable pub build_jwt : Platform → Json → String → String
build_jwt p payload secret =
    let header = object (("alg", str "HS256") ∷ ("typ", str "JWT") ∷ []) in
    let signed_input = join "" (p.encode_json header ∷ "." ∷ p.encode_json payload ∷ []) in
    join "" (signed_input ∷ "." ∷ p.base64url (p.hmac_sha256 secret signed_input) ∷ [])

unfoldable pub claims_json : SessionClaims → Json
claims_json c = object (
    ("iss", str c.iss)
    ∷ ("sub", str c.sub)
    ∷ ("aud", str c.aud)
    ∷ ("iat", num c.iat)
    ∷ ("exp", num c.exp)
    ∷ ("jti", str c.jti)
    ∷ ("token_use", str "dataconv_access")
    ∷ ("organization", str c.organization)
    ∷ ("scope", str c.scope)
    ∷ ("scopes", array (map str c.scopes))
    ∷ if_text "client_id" c.client_id)

pub record IssuedToken : Type 0 where
  pub access_token : String
  pub expires_in : ℕ
  pub claims : SessionClaims

unfoldable pub issue_access_token :
    Platform → TokenEnv → ℕ → String → String → String → List String → String → Result IssuedToken
unfolding session_secret claims_json build_jwt tenant_key
issue_access_token p env now uuid subject organization scopes client_id = do
  let secret = session_secret env
  reject_if (is_empty secret) "Session token secret is not configured."
  let claims : SessionClaims = record {
    iss = trim (env.issuer_did ||| "did:web:localhost%3A3310");
    sub = subject;
    aud = trim (env.audience_did ||| "did:web:localhost%3A3310");
    iat = epoch now;
    exp = epoch now + env.ttl_seconds;
    jti = uuid;
    organization = tenant_key organization;
    scope = join " " scopes;
    scopes = scopes;
    client_id = client_id;
  }
  ok (record {
    access_token = build_jwt p (claims_json claims) secret;
    expires_in = env.ttl_seconds;
    claims = claims;
  })
