-- ===== src/Auth/Laws.antt =====
-- The PKCE exchange of src/api/tools/backend-auth-service.ts: who may redeem what.
use dataspace_ica_ts.Common.{
  ℕ, ◌+◌, String, ◌≡◌, true, false, ◌&&◌, ◌||◌, some, List, [], ◌∷◌, arith, eq_iff, eq_refl, any,
  ltb, ◌==◌, is_empty, if◌then◌else◌, ok, Option-cases, inl, inr,
}
use dataspace_ica_ts.Text.{trim}
use dataspace_ica_ts.Dict.{Dict, get, put}
use dataspace_ica_ts.Dict.Laws.{get-put}
use dataspace_ica_ts.Auth.{Platform, Binding, PkceCode, AuthState, list_at, tenant_key, epoch}
use dataspace_ica_ts.Auth.Tokens.{TokenEnv, session_secret}
use dataspace_ica_ts.Auth.Pkce.{
  put_binding, is_bound, assert_bound_client, issue_pkce_id_token, pkce_id_token,
}

any-put_binding :
    (b : Binding) (client : String) (bindings : List Binding)
    → any (λ (c : Binding). c.client_id == client) (put_binding b bindings)
      ≡ (b.client_id == client || any (λ (c : Binding). c.client_id == client) bindings)
unfolding put_binding
any-put_binding b client [] = ground arith
any-put_binding b client (c ∷ bindings) = ground (
  arith,
  any-put_binding b client bindings,
  eq_iff c.client_id b.client_id,
  eq_iff c.client_id client,
  eq_iff b.client_id client,
)

-- What a client must present for its code, at a time in seconds.
pub record IsRedeemable (p : Platform) (env : TokenEnv) (at : ℕ) (tenant client verifier : String)
    (issued : PkceCode) : Type 0 where
  pub client_given : is_empty client ≡ false
  pub verifier_given : is_empty verifier ≡ false
  pub unexpired : ltb issued.expires_at_epoch at ≡ false
  pub same_tenant : issued.tenant_id ≡ tenant
  pub same_client : issued.client_id ≡ client
  pub verified : p.sha256_base64url verifier ≡ issued.code_challenge
  pub configured : is_empty (session_secret env) ≡ false

pub issue_pkce_id_token-ok :
    (p : Platform) (env : TokenEnv) (now : ℕ) (uuid tenant client code verifier : String)
    (s : AuthState) (reply : AuthState × String)
    → issue_pkce_id_token p env now uuid tenant client code verifier s ≡ ok reply
    → (issued : PkceCode) × (get (trim code) s.pkce_codes ≡ some issued)
      × IsRedeemable p env (epoch now) (tenant_key tenant) (trim client) (trim verifier) issued
      × (is_bound (tenant_key tenant) (trim client) s ≡ true)
unfolding issue_pkce_id_token assert_bound_client
issue_pkce_id_token-ok p env now uuid tenant client code verifier s reply h =
    elim (Option-cases (get (trim code) s.pkce_codes)) [
      | inl e ↦ ground arith
      | inr (issued, e) ↦ (issued, e, redeemable issued e, ground arith)
    ]
  where
    redeemable :
        (issued : PkceCode)
        → get (trim code) s.pkce_codes ≡ some issued
        → IsRedeemable p env (epoch now) (tenant_key tenant) (trim client) (trim verifier) issued
    redeemable issued e = record {
      client_given = ground arith;
      verifier_given = ground arith;
      unexpired = ground arith;
      same_tenant = ground (arith, eq_iff issued.tenant_id (tenant_key tenant));
      same_client = ground (arith, eq_iff issued.client_id (trim client));
      verified = ground (arith, eq_iff (p.sha256_base64url (trim verifier)) issued.code_challenge);
      configured = ground arith;
    }

-- The state that redeeming a code leaves: the identity token is known for 300 seconds.
abbrev pub with_id_token : ℕ → String → String → String → AuthState → AuthState
with_id_token at token tenant client s = record s {
  id_tokens =
      put token (record { tenant_id = tenant; client_id = client; expires_at_epoch = at + 300 })
        s.id_tokens;
}

pub issue_pkce_id_token-redeemable :
    (p : Platform) (env : TokenEnv) (now : ℕ) (uuid tenant client code verifier : String)
    (s : AuthState) (issued : PkceCode)
    → is_empty (trim code) ≡ false
    → get (trim code) s.pkce_codes ≡ some issued
    → IsRedeemable p env (epoch now) (tenant_key tenant) (trim client) (trim verifier) issued
    → is_bound (tenant_key tenant) (trim client) s ≡ true
    → let token = pkce_id_token p env now uuid (tenant_key tenant) (trim client) in
      issue_pkce_id_token p env now uuid tenant client code verifier s
      ≡ ok (with_id_token (epoch now) token (tenant_key tenant) (trim client) s, token)
unfolding issue_pkce_id_token assert_bound_client
issue_pkce_id_token-redeemable p env now uuid tenant client code verifier s issued given e r bound =
    simp (
      r.client_given, given, r.verifier_given, e, r.unexpired, r.same_tenant, r.same_client,
      r.verified, eq_refl, bound, r.configured,
    )

abbrev pub with_bindings : AuthState → Dict (List Binding) → AuthState
with_bindings s bindings = record s { bindings_by_tenant = bindings }

pub issue_pkce_id_token-reply :
    (p : Platform) (env : TokenEnv) (now : ℕ) (uuid tenant client code verifier : String)
    (s : AuthState) (reply : AuthState × String)
    → issue_pkce_id_token p env now uuid tenant client code verifier s ≡ ok reply
    → (with_id_token
          (epoch now)
          (pkce_id_token p env now uuid (tenant_key tenant) (trim client))
          (tenant_key tenant)
          (trim client)
          s
        ≡ reply.0)
      × (is_bound (tenant_key tenant) (trim client) s ≡ true)
unfolding issue_pkce_id_token assert_bound_client
issue_pkce_id_token-reply p env now uuid tenant client code verifier s reply h =
    elim (Option-cases (get (trim code) s.pkce_codes)) [
      | inl e ↦ (ground arith, ground arith)
      | inr (issued, e) ↦ (ground arith, ground arith)
    ]

pub list_at-put :
    {V : Type 0} (t tenant : String) (l : List V) (d : Dict (List V))
    → list_at t (put tenant l d) ≡ (if tenant == t then l else list_at t d)
unfolding list_at
list_at-put t tenant l d = ground (arith, get-put tenant t l d)

pub is_bound-put_binding :
    (t tenant client : String) (b : Binding) (s : AuthState)
    → is_bound t client (
        with_bindings s
          (put tenant (put_binding b (list_at tenant s.bindings_by_tenant)) s.bindings_by_tenant))
      ≡ (tenant == t && b.client_id == client || is_bound t client s)
unfolding is_bound
is_bound-put_binding t tenant client b s =
    let bindings = list_at tenant s.bindings_by_tenant in
    ground (
      arith,
      eq_iff tenant t,
      any-put_binding b client bindings,
      list_at-put t tenant (put_binding b bindings) s.bindings_by_tenant,
    )
