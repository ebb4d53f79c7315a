-- ===== src/Auth/Pkce.antt =====
-- Binding a client to its API key, and the three exchanges that follow: `bindDcr`, `issuePkceCode`,
-- `issuePkceIdToken`, `exchangeIdentityToken` and `exchangeControllerBootstrap` of
-- src/api/tools/backend-auth-service.ts. Each throws before its first write.
use dataspace_ica_ts.Common.{
  ℕ, ◌+◌, String, Bool, not, ◌||◌, Option, List, [], ◌∷◌, first, any, ◌==◌, ◌|||◌, ltb, is_empty,
  if◌then◌else◌, Result, ok, ◌>>=◌, ◌>>◌, reject_if, require,
}
use dataspace_ica_ts.Text.{trim, to_upper, join}
use dataspace_ica_ts.Dict.{get, put}
use dataspace_ica_ts.Json.{Json, num, str, object}
use dataspace_ica_ts.Auth.{
  Platform, ApiKey, Binding, PkceCode, IdToken, AuthState, list_at, tenant_key, epoch,
}
use dataspace_ica_ts.Auth.Tokens.{
  TokenEnv, IssuedToken, session_secret, build_jwt, issue_access_token,
}

-- `bindings[existingIndex] = binding`, or a push where there is none.
unfoldable pub put_binding : Binding → List Binding → List Binding
put_binding b [] = b ∷ []
put_binding b (c ∷ bindings) =
    let rest = put_binding b bindings in
    if c.client_id == b.client_id then b ∷ bindings else c ∷ rest

pub record DcrRequest : Type 0 where
  pub tenant_id : String
  pub client_id : String
  pub controller_public_key_jwk : Json
  pub metadata : Json
  pub device : Json

unfoldable pub policy_of : Platform → String → List ApiKey → Option ApiKey
policy_of p client_id keys = first (λ (key : ApiKey). key.key_hash == p.sha256_hex client_id) keys

unfoldable pub new_binding : Platform → ℕ → DcrRequest → Binding
unfolding tenant_key
new_binding p now r = record {
  tenant_id = tenant_key r.tenant_id;
  client_id = trim r.client_id;
  api_key_hash = p.sha256_hex (trim r.client_id);
  controller_public_key_jwk = r.controller_public_key_jwk;
  metadata = r.metadata;
  bound_at = epoch now;
  device = r.device;
}

unfoldable pub bind_dcr : Platform → ℕ → DcrRequest → AuthState → Result AuthState
unfolding list_at policy_of new_binding put_binding
bind_dcr p now r s = do
  let tenant = tenant_key r.tenant_id
  let client_id = trim r.client_id
  reject_if (is_empty client_id) "client_id is required."
  policy ←
      require (policy_of p client_id (list_at tenant s.api_keys_by_tenant))
        "client_id does not match any provisioned API key."
  reject_if (policy.disabled || not policy.active) "API key is disabled or removed."
  ok (record s {
    bindings_by_tenant =
        put tenant (put_binding (new_binding p now r) (list_at tenant s.bindings_by_tenant))
          s.bindings_by_tenant;
  })

unfoldable pub is_bound : String → String → AuthState → Bool
unfolding list_at
is_bound tenant client_id s =
    any (λ (b : Binding). b.client_id == client_id) (list_at tenant s.bindings_by_tenant)

unfoldable pub assert_bound_client : String → String → AuthState → Result (Unit {0})
unfolding is_bound
assert_bound_client tenant client_id s =
    reject_if (not (is_bound tenant client_id s))
      "client is not bound via _dcr (expected state: bound)."

-- The reply is the code, `uuid`.
unfoldable pub issue_pkce_code :
    ℕ → String → String → String → String → String → AuthState → Result (AuthState × String)
unfolding assert_bound_client
issue_pkce_code now uuid tenant_id client code_challenge code_challenge_method s = do
  let tenant = tenant_key tenant_id
  let client_id = trim client
  let challenge = trim code_challenge
  let method = to_upper (trim (code_challenge_method ||| "S256"))
  reject_if (is_empty client_id || is_empty challenge) "client_id and code_challenge are required."
  reject_if (not (method == "S256")) "code_challenge_method must be S256."
  assert_bound_client tenant client_id s
  let code : PkceCode = record {
    tenant_id = tenant;
    client_id = client_id;
    code_challenge = challenge;
    expires_at_epoch = epoch now + 300;
  }
  ok (record s { pkce_codes = put uuid code s.pkce_codes }, uuid)

id_payload : ℕ → String → String → String → Json
id_payload now uuid tenant client_id = object (
    ("iss", str "https://identity.ica.local")
    ∷ ("sub", str (join "" ("client:" ∷ client_id ∷ [])))
    ∷ ("aud", str "ica")
    ∷ ("iat", num (epoch now))
    ∷ ("exp", num (epoch now + 300))
    ∷ ("tenant", str tenant)
    ∷ ("client_id", str client_id)
    ∷ ("token_use", str "ica_pkce_id_token")
    ∷ ("jti", str uuid)
    ∷ [])

unfoldable pub pkce_id_token : Platform → TokenEnv → ℕ → String → String → String → String
unfolding id_payload session_secret build_jwt
pkce_id_token p env now uuid tenant client_id =
    build_jwt p (id_payload now uuid tenant client_id) (session_secret env)

-- The reply is the identity token.
unfoldable pub issue_pkce_id_token :
    Platform
    → TokenEnv
    → ℕ
    → String
    → String
    → String
    → String
    → String
    → AuthState
    → Result (AuthState × String)
unfolding assert_bound_client pkce_id_token
issue_pkce_id_token p env now uuid tenant_id client code_text code_verifier s = do
  let tenant = tenant_key tenant_id
  let client_id = trim client
  let code = trim code_text
  let verifier = trim code_verifier
  reject_if (is_empty client_id || is_empty code || is_empty verifier)
      "client_id, code and code_verifier are required."
  issued ← require (get code s.pkce_codes) "invalid code."
  reject_if (ltb issued.expires_at_epoch (epoch now)) "code expired."
  reject_if (not (issued.tenant_id == tenant)) "code tenant mismatch."
  reject_if (not (issued.client_id == client_id)) "code client mismatch."
  reject_if (not (p.sha256_base64url verifier == issued.code_challenge)) "invalid code_verifier."
  assert_bound_client tenant client_id s
  reject_if (is_empty (session_secret env)) "Session token secret is not configured."
  let token = pkce_id_token p env now uuid tenant client_id
  let issued_token : IdToken = record {
    tenant_id = tenant;
    client_id = client_id;
    expires_at_epoch = epoch now + 300;
  }
  ok (record s { id_tokens = put token issued_token s.id_tokens }, token)

unfoldable pub exchange_identity_token :
    Platform → TokenEnv → ℕ → String → String → String → String → AuthState → Result IssuedToken
unfolding assert_bound_client
exchange_identity_token p env now uuid tenant_id client token_text s = do
  let tenant = tenant_key tenant_id
  let client_id = trim client
  let id_token = trim token_text
  reject_if (is_empty client_id || is_empty id_token) "client_id and subject_token are required."
  token ← require (get id_token s.id_tokens) "subject_token is unknown or expired."
  reject_if (ltb token.expires_at_epoch (epoch now)) "subject_token expired."
  reject_if (not (token.tenant_id == tenant) || not (token.client_id == client_id))
      "subject_token tenant/client mismatch."
  assert_bound_client tenant client_id s
  issue_access_token p env now uuid (join "" ("backend:" ∷ client_id ∷ [])) tenant
      ("ica.backend.read" ∷ "ica.catalog.read" ∷ []) client_id

unfoldable pub exchange_controller_bootstrap :
    Platform → TokenEnv → ℕ → String → String → String → Result IssuedToken
exchange_controller_bootstrap p env now uuid tenant_id subject =
    let tenant = tenant_key tenant_id in
    issue_access_token p env now uuid (subject ||| join "" ("controller:" ∷ tenant ∷ [])) tenant
      ("dataconv.tenant.keys.manage" ∷ "ica.backend.read" ∷ "ica.catalog.read" ∷ []) ""
