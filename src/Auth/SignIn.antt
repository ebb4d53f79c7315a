-- ===== src/Auth/SignIn.antt =====
-- A client that signs in to src/api/tools/backend-auth-service.ts: code, identity token, access token.
use dataspace_ica_ts.Common.{
  ℕ, ◌+◌, ◌≤◌, String, ◌≡◌, refl, true, false, List, [], ◌∷◌, arith, eq_refl, first, ltb, is_empty,
  Result, ok, throw, ◌>>=◌,
}
use dataspace_ica_ts.Text.{trim, to_upper, join}
use dataspace_ica_ts.Dict.Laws.{get-put_self}
use dataspace_ica_ts.Auth.{Platform, AuthState, tenant_key, epoch}
use dataspace_ica_ts.Auth.Tokens.{TokenEnv, IssuedToken, session_secret, issue_access_token}
use dataspace_ica_ts.Auth.Pkce.{
  is_bound, assert_bound_client, issue_pkce_code, issue_pkce_id_token, pkce_id_token,
  exchange_identity_token,
}
use dataspace_ica_ts.Auth.Laws.{with_id_token}
use dataspace_ica_ts.Auth.Backed.{with_code}

-- What a client has: texts that stay as they are when trimmed, the hash of its verifier as its
-- challenge, and the server's secret.
pub record IsClient (p : Platform) (env : TokenEnv) (client verifier challenge code : String)
    : Type 0 where
  pub client_kept : trim client ≡ client
  pub client_given : is_empty client ≡ false
  pub verifier_given : is_empty (trim verifier) ≡ false
  pub challenge_kept : trim challenge ≡ challenge
  pub challenge_given : is_empty challenge ≡ false
  pub challenged : p.sha256_base64url (trim verifier) ≡ challenge
  pub code_kept : trim code ≡ code
  pub code_given : is_empty code ≡ false
  pub configured : is_empty (session_secret env) ≡ false

ltb-false : (a b : ℕ) → b ≤ a → ltb a b ≡ false
ltb-false a b h = ground arith

upper_method : to_upper (trim "S256") ≡ "S256"
unfolding to_upper trim
upper_method = refl

code_step :
    (p : Platform) (env : TokenEnv) (t₁ : ℕ) (tenant client verifier challenge code : String)
    (s : AuthState)
    → IsClient p env client verifier challenge code
    → is_bound (tenant_key tenant) client s ≡ true
    → issue_pkce_code t₁ code tenant client challenge "S256" s
      ≡ ok (with_code (epoch t₁) code (tenant_key tenant) client challenge s, code)
unfolding issue_pkce_code assert_bound_client
code_step p env t₁ tenant client verifier challenge code s c bound =
    simp (c.client_kept, c.client_given, c.challenge_kept, c.challenge_given, bound, upper_method)

token_step :
    (p : Platform) (env : TokenEnv) (t₁ t₂ : ℕ)
    (uuid tenant client verifier challenge code : String) (s : AuthState)
    → IsClient p env client verifier challenge code
    → is_bound (tenant_key tenant) client s ≡ true
    → epoch t₂ ≤ epoch t₁ + 300
    → let token = pkce_id_token p env t₂ uuid (tenant_key tenant) client in
      let s₁ = with_code (epoch t₁) code (tenant_key tenant) client challenge s in
      issue_pkce_id_token p env t₂ uuid tenant client code verifier s₁
      ≡ ok (with_id_token (epoch t₂) token (tenant_key tenant) client s₁, token)
unfolding issue_pkce_id_token assert_bound_client is_bound
token_step p env t₁ t₂ uuid tenant client verifier challenge code s c bound soon = simp (
  c.client_kept,
  c.client_given,
  c.code_kept,
  c.code_given,
  c.verifier_given,
  get-put_self,
  ltb-false (epoch t₁ + 300) (epoch t₂) soon,
  c.challenged,
  eq_refl,
  bound,
  c.configured,
)

exchange_step :
    (p : Platform) (env : TokenEnv) (t₂ t₃ : ℕ)
    (uuid tenant client verifier challenge code token : String) (s : AuthState)
    → IsClient p env client verifier challenge code
    → is_bound (tenant_key tenant) client s ≡ true
    → trim token ≡ token
    → is_empty token ≡ false
    → epoch t₃ ≤ epoch t₂ + 300
    → exchange_identity_token p env t₃ uuid tenant client token
        (with_id_token (epoch t₂) token (tenant_key tenant) client s)
      ≡ issue_access_token p env t₃ uuid
          (join "" ("backend:" ∷ client ∷ []))
          (tenant_key tenant)
          ("ica.backend.read" ∷ "ica.catalog.read" ∷ [])
          client
unfolding exchange_identity_token assert_bound_client is_bound
exchange_step p env t₂ t₃ uuid tenant client verifier challenge code token s c bound kept given
      soon =
    simp (
      c.client_kept,
      c.client_given,
      kept,
      given,
      get-put_self,
      ltb-false (epoch t₂ + 300) (epoch t₃) soon,
      eq_refl,
      bound,
    )

-- The three calls of a client, each with the reply of the one before: the times and the UUIDs that
-- the server draws are given.
abbrev pub sign_in :
    Platform
    → TokenEnv
    → (times : ℕ × ℕ × ℕ) → (uuids : String × String × String) → String
    → String
    → String
    → String
    → AuthState
    → Result IssuedToken
sign_in p env (t₁, t₂, t₃) (code, uuid₂, uuid₃) tenant client verifier challenge s = do
  first ← issue_pkce_code t₁ code tenant client challenge "S256" s
  second ← issue_pkce_id_token p env t₂ uuid₂ tenant client first.1 verifier first.0
  exchange_identity_token p env t₃ uuid₃ tenant client second.1 second.0

issue_access_token-ok :
    (p : Platform) (env : TokenEnv) (now : ℕ) (uuid subject tenant client : String)
    (scopes : List String)
    → is_empty (session_secret env) ≡ false
    → (access : IssuedToken) × (issue_access_token p env now uuid subject tenant scopes client
        ≡ ok access)
      × (access.claims.client_id ≡ client)
      × (access.claims.scopes ≡ scopes)
      × (access.claims.organization ≡ tenant_key tenant)
      × (access.claims.exp ≡ epoch now + env.ttl_seconds)
unfolding issue_access_token
issue_access_token-ok p env now uuid subject tenant client scopes configured =
    go (issue_access_token p env now uuid subject tenant scopes client) refl
  where
    go :
        (r : Result IssuedToken)
        → issue_access_token p env now uuid subject tenant scopes client ≡ r
        → (access : IssuedToken) × (r ≡ ok access)
          × (access.claims.client_id ≡ client)
          × (access.claims.scopes ≡ scopes)
          × (access.claims.organization ≡ tenant_key tenant)
          × (access.claims.exp ≡ epoch now + env.ttl_seconds)
    go (throw m) h = ground arith
    go (ok access) h = (access, refl, ground arith, ground arith, ground arith, ground arith)

-- A bound client that redeems its code within 300 seconds, with the verifier whose hash it sent,
-- and exchanges the identity token within 300 seconds of that, gets an access token for its
-- tenant: with its client id, the scopes of a backend, and the configured lifetime. The times
-- count in whole seconds; a session secret must be configured; client id, challenge, code and
-- identity token must be texts that are not empty and that trimming keeps.
pub sign_in-bound :
    (p : Platform) (env : TokenEnv) (t₁ t₂ t₃ : ℕ)
    (uuid₂ uuid₃ tenant client verifier challenge code token : String) (s : AuthState)
    → IsClient p env client verifier challenge code
    → is_bound (tenant_key tenant) client s ≡ true
    → epoch t₂ ≤ epoch t₁ + 300
    → epoch t₃ ≤ epoch t₂ + 300
    → pkce_id_token p env t₂ uuid₂ (tenant_key tenant) client ≡ token
    → trim token ≡ token
    → is_empty token ≡ false
    → (access : IssuedToken) × (sign_in p env
          (t₁, t₂, t₃)
          (code, uuid₂, uuid₃)
          tenant
          client
          verifier
          challenge
          s
        ≡ ok access)
      × (access.claims.client_id ≡ client)
      × (access.claims.scopes ≡ ("ica.backend.read" ∷ "ica.catalog.read" ∷ []))
      × (access.claims.organization ≡ tenant_key (tenant_key tenant))
      × (access.claims.exp ≡ epoch t₃ + env.ttl_seconds)
sign_in-bound p env t₁ t₂ t₃ uuid₂ uuid₃ tenant client verifier challenge code token s c bound soon₁
      soon₂ same kept given =
    let s₁ = with_code (epoch t₁) code (tenant_key tenant) client challenge s in
    let (access, e, client_id, scopes, organization, exp) =
      issue_access_token-ok p env t₃ uuid₃ (join "" ("backend:" ∷ client ∷ [])) (tenant_key tenant)
        client ("ica.backend.read" ∷ "ica.catalog.read" ∷ []) c.configured in
    let bound₁ : is_bound (tenant_key tenant) client s₁ ≡ true = unfold is_bound in bound in
    (
      access,
      simp (
        code_step p env t₁ tenant client verifier challenge code s c bound,
        token_step p env t₁ t₂ uuid₂ tenant client verifier challenge code s c bound soon₁,
        same,
        exchange_step p env t₂ t₃ uuid₃ tenant client verifier challenge code token s₁ c bound₁ kept
            given soon₂,
        e,
      ),
      client_id,
      scopes,
      organization,
      exp,
    )
