-- ===== src/Auth/RoundTrip.antt =====
-- The tokens that src/api/tools/backend-auth-service.ts issues, and its reading of them.
use Prim.Native.String.{[], ◌∷◌}
use dataspace_ica_ts.Common.{
  ℕ, ◌+◌, ◌≤◌, String, ◌≡◌, ◌≢◌, inl, inr, refl, sym, ◌∙◌, ap, true, false, none, some, List, [],
  ◌∷◌, arith, eq_iff, eq_refl, is_empty, ok, Bool-cases,
}
use dataspace_ica_ts.Text.{trim, to_lower, to_upper, join}
use dataspace_ica_ts.Text.Tokens.{is_empty-join_dot}
use dataspace_ica_ts.Json.{Entries, of_entries, field, as_string, str, num, if_text}
use dataspace_ica_ts.Config.Security.{SecurityConfig}
use dataspace_ica_ts.Auth.{Platform, tenant_key, epoch}
use dataspace_ica_ts.Auth.Tokens.{
  SessionClaims, TokenEnv, ParsedJwt, IssuedToken, session_secret, properties, parse_jwt_unverified,
  signature_valid, temporal_claims_valid, to_epoch, decode_bearer_token, check_signed, claims_of,
  check_claims, skips_signature, validate_bearer_access, build_jwt, claims_json, issue_access_token,
}
use dataspace_ica_ts.Auth.Encoded.{
  tenant_key_idem, bytes_equal_refl, IsCodec, build_jwt-unspaced, parse-build_jwt, decode-bearer,
  read_jwt,
}

-- What the payload of a session token says.
pub record IsPayload (claims : SessionClaims) (payload : Entries) : Type 0 where
  pub token_use : field "token_use" payload ≡ some (str "dataconv_access")
  pub organization : field "organization" payload ≡ some (str claims.organization)
  pub sub : field "sub" payload ≡ some (str claims.sub)
  pub exp : field "exp" payload ≡ some (num claims.exp)
  pub iat : field "iat" payload ≡ some (num claims.iat)
  pub nbf : field "nbf" payload ≡ none
  pub client_id : as_string (field "client_id" payload) ≡ trim claims.client_id

client_id-if_text :
    (c : String) → as_string (field "client_id" (of_entries (if_text "client_id" c))) ≡ trim c
unfolding field as_string trim
client_id-if_text c = elim (Bool-cases (is_empty c)) [
  | inl e ↦ rw (empty e) refl
  | inr e ↦ rw e refl
]
  where
    empty : is_empty c ≡ true → c ≡ ""
    empty e = (eq_iff c "").0 e

nbf-if_text : (c : String) → field "nbf" (of_entries (if_text "client_id" c)) ≡ none
unfolding field
nbf-if_text c = ground arith

claims-IsPayload :
    (claims : SessionClaims)
    → (payload : Entries) × (properties (claims_json claims) ≡ ok payload)
      × IsPayload claims payload
unfolding properties claims_json field
claims-IsPayload claims = (
  _,
  refl,
  record {
    token_use = refl;
    organization = refl;
    sub = refl;
    exp = refl;
    iat = refl;
    nbf = nbf-if_text claims.client_id;
    client_id = client_id-if_text claims.client_id;
  },
)

temporal_claims_valid-issued :
    (p : Platform) (at : ℕ) (claims : SessionClaims) (payload : Entries)
    → IsPayload claims payload
    → claims.exp ≢ 0
    → at ≤ claims.exp + 60
    → claims.iat ≤ at + 60
    → temporal_claims_valid p payload at ≡ true
unfolding temporal_claims_valid to_epoch
temporal_claims_valid-issued p at claims payload q nonzero early late =
    rw (q.exp, q.iat, q.nbf) (ground arith)

check_claims-issued :
    (p : Platform) (claims : SessionClaims) (payload : Entries) (organization : String)
    → IsPayload claims payload
    → claims.organization ≡ tenant_key organization
    → is_empty (tenant_key organization) ≡ false
    → (read : SessionClaims) × (check_claims p organization payload ≡ ok read)
      × (read.organization ≡ claims.organization)
      × (read.sub ≡ trim claims.sub)
      × (read.exp ≡ claims.exp)
      × (read.client_id ≡ trim claims.client_id)
unfolding claims_of to_epoch
check_claims-issued p claims payload organization q own named =
    let read : to_lower (as_string (field "organization" payload)) ≡ tenant_key organization =
      unfold as_string tenant_key in rw (q.organization, own) (tenant_key_idem organization) in
    (
      claims_of p payload,
      accepted read,
      read ∙ sym own,
      unfold as_string in rw q.sub refl,
      rw q.exp refl,
      q.client_id,
    )
  where
    access : as_string (field "token_use" payload) ≡ "dataconv_access"
    access = unfold as_string trim in rw q.token_use refl

    accepted :
        to_lower (as_string (field "organization" payload)) ≡ tenant_key organization
        → check_claims p organization payload ≡ ok (claims_of p payload)
    accepted read = elim (Bool-cases (is_empty organization)) [
      | inl e ↦ unfold check_claims in simp (access, read, named, eq_refl, e)
      | inr e ↦ unfold check_claims in simp (access, read, named, eq_refl, e)
    ]

check_signed-issued :
    (p : Platform) (env : TokenEnv) (later : ℕ) (claims : SessionClaims) (payload : Entries)
    → IsCodec p (session_secret env) (claims_json claims)
    → properties (claims_json claims) ≡ ok payload
    → is_empty (session_secret env) ≡ false
    → temporal_claims_valid p payload (epoch later) ≡ true
    → check_signed p env later (read_jwt p (claims_json claims) (session_secret env)) ≡ ok tt
unfolding check_signed signature_valid field properties
check_signed-issued p env later claims payload c e configured timely =
    simp (hs256, configured, c.reads_mac, bytes_equal_refl, e, timely)
  where
    hs256 : to_upper (as_string (some (str "HS256"))) ≡ "HS256"
    hs256 = unfold as_string trim to_upper in refl

-- What the reply of the issue says of the claims.
record IsIssue (p : Platform) (env : TokenEnv) (now : ℕ) (subject organization client : String)
    (issued : IssuedToken) : Type 0 where
  configured : is_empty (session_secret env) ≡ false
  token : issued.access_token ≡ build_jwt p (claims_json issued.claims) (session_secret env)
  sub : issued.claims.sub ≡ subject
  tenant : issued.claims.organization ≡ tenant_key organization
  client_id : issued.claims.client_id ≡ client
  iat : issued.claims.iat ≡ epoch now
  exp : issued.claims.exp ≡ epoch now + env.ttl_seconds

issue_access_token-IsIssue :
    (p : Platform) (env : TokenEnv) (now : ℕ) (uuid subject organization client : String)
    (scopes : List String) (issued : IssuedToken)
    → issue_access_token p env now uuid subject organization scopes client ≡ ok issued
    → IsIssue p env now subject organization client issued
unfolding issue_access_token
issue_access_token-IsIssue p env now uuid subject organization client scopes issued h = record {
  configured = ground arith;
  token = ground arith;
  sub = ground arith;
  tenant = ground arith;
  client_id = ground arith;
  iat = ground arith;
  exp = ground arith;
}

validate_bearer_access-steps :
    (p : Platform) (env : TokenEnv) (security : SecurityConfig) (now : ℕ)
    (header tenant token : String) (jwt : ParsedJwt) (payload : Entries)
    → decode_bearer_token header ≡ ok token
    → parse_jwt_unverified p token ≡ ok jwt
    → check_signed p env now jwt ≡ ok tt
    → properties jwt.payload ≡ ok payload
    → validate_bearer_access p env security now header tenant ≡ check_claims p tenant payload
unfolding validate_bearer_access
validate_bearer_access-steps p env security now header tenant token jwt payload decoded parsed
      signed read =
    elim (Bool-cases (skips_signature security)) [
      | inl e ↦ simp (decoded, parsed, e, read)
      | inr e ↦ simp (decoded, parsed, e, signed, read)
    ]

-- A token that was issued with a configured secret for an organization that is not blank, and
-- whose expiry is not 0, is accepted for that organization, from 60 seconds before it was issued
-- to 60 seconds after it expires, in every security mode, and read back with its organization and
-- expiry, and with its subject and client id, trimmed. The platform must read back what it encodes
-- of this token, in texts without dots and white space.
pub validate_bearer_access-issued :
    (p : Platform) (env : TokenEnv) (security : SecurityConfig) (now later : ℕ)
    (uuid subject organization client : String) (scopes : List String) (issued : IssuedToken)
    → issue_access_token p env now uuid subject organization scopes client ≡ ok issued
    → IsCodec p (session_secret env) (claims_json issued.claims)
    → is_empty (tenant_key organization) ≡ false
    → epoch now + env.ttl_seconds ≢ 0
    → epoch now ≤ epoch later + 60
    → epoch later ≤ epoch now + env.ttl_seconds + 60
    → (read : SessionClaims) × (validate_bearer_access p env security later
          (join "" ("Bearer " ∷ issued.access_token ∷ []))
          organization
        ≡ ok read)
      × (read.organization ≡ issued.claims.organization)
      × (read.sub ≡ trim subject)
      × (read.exp ≡ issued.claims.exp)
      × (read.client_id ≡ trim client)
validate_bearer_access-issued p env security now later uuid subject organization client scopes
      issued h c named nonzero early late =
    let r = issue_access_token-IsIssue p env now uuid subject organization client scopes issued h in
    let secret = session_secret env in
    let (payload, e, q) = claims-IsPayload issued.claims in
    let (read, accepted, organization_kept, sub, exp, client_id) =
      check_claims-issued p issued.claims payload organization q r.tenant named in
    let timely =
      temporal_claims_valid-issued p (epoch later) issued.claims payload q (rw r.exp nonzero)
        (rw r.exp late) (rw r.iat early) in
    let steps =
      validate_bearer_access-steps p env security later _ organization
        (build_jwt p (claims_json issued.claims) secret) _ payload
        (decode-bearer _ (build_jwt-unspaced p (claims_json issued.claims) secret c)
          (unfold build_jwt in is_empty-join_dot _ _))
        (parse-build_jwt p (claims_json issued.claims) secret c)
        (check_signed-issued p env later issued.claims payload c e r.configured timely) e in
    (
      read,
      rw r.token (steps ∙ accepted),
      organization_kept,
      sub ∙ ap trim r.sub,
      exp,
      client_id ∙ ap trim r.client_id,
    )
