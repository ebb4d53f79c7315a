-- ===== src/Auth/Backed.antt =====
-- What src/api/tools/backend-auth-service.ts stores, after any sequence of its calls.
use dataspace_ica_ts.Common.{
  ℕ, ◌+◌, String, ◌≡◌, refl, true, some, List, [], ◌∷◌, arith, Result, ok, throw, Option-cases, inl,
  inr,
}
use mathlib.Core.Path.{subst}
use dataspace_ica_ts.Text.{trim}
use dataspace_ica_ts.Dict.{Dict, get, put}
use dataspace_ica_ts.Dict.Laws.{get-put}
use dataspace_ica_ts.Auth.Events.{
  Call, creates_keys, mutates_keys, binds, issues_code, issues_id_token, state_or, reply_state_or,
  perform, perform_all,
}
use dataspace_ica_ts.Auth.Keys.{create_api_keys, mutate_api_keys, Mutation, Selector, CreateAction}
use dataspace_ica_ts.Auth.{
  empty_state, Platform, ApiKey, PkceCode, IdToken, AuthState, list_at, tenant_key, epoch,
}
use dataspace_ica_ts.Auth.Tokens.{TokenEnv}
use dataspace_ica_ts.Auth.Pkce.{
  put_binding, bind_dcr, is_bound, assert_bound_client, issue_pkce_code, issue_pkce_id_token,
  new_binding, policy_of, DcrRequest,
}
use dataspace_ica_ts.Auth.Laws.{with_bindings, is_bound-put_binding, issue_pkce_id_token-reply}

-- Every stored code and identity token is that of a client bound in its tenant.
pub record IsBacked (s : AuthState) : Type 0 where
  pub codes :
      (k : String) (code : PkceCode)
      → get k s.pkce_codes ≡ some code
      → is_bound code.tenant_id code.client_id s ≡ true
  pub tokens :
      (k : String) (token : IdToken)
      → get k s.id_tokens ≡ some token
      → is_bound token.tenant_id token.client_id s ≡ true

bind_dcr-IsBacked :
    (p : Platform) (now : ℕ) (r : DcrRequest) (s s' : AuthState)
    → bind_dcr p now r s ≡ ok s'
    → IsBacked s
    → IsBacked s'
unfolding bind_dcr
bind_dcr-IsBacked p now r s s' h v =
    let tenant = tenant_key r.tenant_id in
    let after = with_bindings s (
      put tenant (put_binding (new_binding p now r) (list_at tenant s.bindings_by_tenant))
        s.bindings_by_tenant) in
    let grows = λ (t c : String). is_bound-put_binding t tenant c (new_binding p now r) s in
    let e : after ≡ s' =
      elim (Option-cases (policy_of p (trim r.client_id) (list_at tenant s.api_keys_by_tenant))) [
        | inl e ↦ ground arith
        | inr (policy, e) ↦ ground arith
      ] in
    subst (λ x. IsBacked x) e
      (record {
        codes = λ k code g. ground (arith, grows code.tenant_id code.client_id, v.codes k code g);
        tokens =
            λ k token g. ground (arith, grows token.tenant_id token.client_id, v.tokens k token g);
      })

-- The bindings are those of before, and what is new is backed.
IsBacked-put_code :
    (k : String) (code : PkceCode) (s : AuthState)
    → is_bound code.tenant_id code.client_id s ≡ true
    → IsBacked s
    → IsBacked (record s { pkce_codes = put k code s.pkce_codes })
unfolding is_bound
IsBacked-put_code k code s bound v = record {
  codes = λ j c g. ground (arith, get-put k j code s.pkce_codes, v.codes j c);
  tokens = v.tokens;
}

IsBacked-put_token :
    (k : String) (token : IdToken) (s : AuthState)
    → is_bound token.tenant_id token.client_id s ≡ true
    → IsBacked s
    → IsBacked (record s { id_tokens = put k token s.id_tokens })
unfolding is_bound
IsBacked-put_token k token s bound v = record {
  codes = v.codes;
  tokens = λ j t g. ground (arith, get-put k j token s.id_tokens, v.tokens j t);
}

IsBacked-keys :
    (keys : Dict (List ApiKey)) (s : AuthState)
    → IsBacked s
    → IsBacked (record s { api_keys_by_tenant = keys })
unfolding is_bound
IsBacked-keys keys s v = record { codes = v.codes; tokens = v.tokens }

-- The two calls on API keys touch nothing else.
pub create_api_keys-keeps :
    (p : Platform) (now : ℕ) (tenant actor : String) (actions : List CreateAction) (s : AuthState)
    → let s' = (create_api_keys p now tenant actor actions s).0 in
      s' ≡ record s { api_keys_by_tenant = s'.api_keys_by_tenant }
unfolding create_api_keys
create_api_keys-keeps p now tenant actor actions s = ground arith

pub mutate_api_keys-keeps :
    (tenant : String) (action : Mutation) (selectors : List Selector) (s : AuthState)
    → let s' = (mutate_api_keys tenant action selectors s).0 in
      s' ≡ record s { api_keys_by_tenant = s'.api_keys_by_tenant }
unfolding mutate_api_keys
mutate_api_keys-keeps tenant action selectors s = ground arith

-- The state in which a new code is stored.
abbrev pub with_code : ℕ → String → String → String → String → AuthState → AuthState
with_code at uuid tenant client challenge s = record s {
  pkce_codes =
      put uuid
        (record {
          tenant_id = tenant;
          client_id = client;
          code_challenge = challenge;
          expires_at_epoch = at + 300;
        })
        s.pkce_codes;
}

issue_pkce_code-ok :
    (now : ℕ) (uuid tenant client challenge method : String) (s : AuthState)
    (reply : AuthState × String)
    → issue_pkce_code now uuid tenant client challenge method s ≡ ok reply
    → (with_code (epoch now) uuid (tenant_key tenant) (trim client) (trim challenge) s ≡ reply.0)
      × (is_bound (tenant_key tenant) (trim client) s ≡ true)
unfolding issue_pkce_code assert_bound_client
issue_pkce_code-ok now uuid tenant client challenge method s reply h = (ground arith, ground arith)

issue_pkce_code-IsBacked :
    (now : ℕ) (uuid tenant client challenge method : String) (s : AuthState)
    (r : Result (AuthState × String))
    → issue_pkce_code now uuid tenant client challenge method s ≡ r
    → IsBacked s
    → IsBacked (reply_state_or s r)
issue_pkce_code-IsBacked now uuid tenant client challenge method s (throw m) h v = v
issue_pkce_code-IsBacked now uuid tenant client challenge method s (ok reply) h v =
    let (e, bound) = issue_pkce_code-ok now uuid tenant client challenge method s reply h in
    subst (λ x. IsBacked x) e (IsBacked-put_code uuid _ s bound v)

issue_pkce_id_token-IsBacked :
    (p : Platform) (env : TokenEnv) (now : ℕ) (uuid tenant client code verifier : String)
    (s : AuthState) (r : Result (AuthState × String))
    → issue_pkce_id_token p env now uuid tenant client code verifier s ≡ r
    → IsBacked s
    → IsBacked (reply_state_or s r)
issue_pkce_id_token-IsBacked p env now uuid tenant client code verifier s (throw m) h v = v
issue_pkce_id_token-IsBacked p env now uuid tenant client code verifier s (ok reply) h v =
    let (e, bound) =
      issue_pkce_id_token-reply p env now uuid tenant client code verifier s reply h in
    subst (λ x. IsBacked x) e (IsBacked-put_token _ _ s bound v)

perform-IsBacked :
    (p : Platform) (env : TokenEnv) (call : Call) (s : AuthState)
    → IsBacked s
    → IsBacked (perform p env call s)
unfolding perform
perform-IsBacked p env (creates_keys now tenant actor actions) s v =
    rw (create_api_keys-keeps p now tenant actor actions s) (IsBacked-keys _ s v)
perform-IsBacked p env (mutates_keys tenant action selectors) s v =
    rw (mutate_api_keys-keeps tenant action selectors s) (IsBacked-keys _ s v)
perform-IsBacked p env (binds now request) s v = go (bind_dcr p now request s) refl
  where
    go : (r : Result AuthState) → bind_dcr p now request s ≡ r → IsBacked (state_or s r)
    go (ok s') e = bind_dcr-IsBacked p now request s s' e v
    go (throw m) e = v
perform-IsBacked p env (issues_code now uuid tenant client challenge method) s v =
    issue_pkce_code-IsBacked now uuid tenant client challenge method s _ refl v
perform-IsBacked p env (issues_id_token now uuid tenant client code verifier) s v =
    issue_pkce_id_token-IsBacked p env now uuid tenant client code verifier s _ refl v

perform_all_keeps :
    (p : Platform) (env : TokenEnv) (calls : List Call) (s : AuthState)
    → IsBacked s
    → IsBacked (perform_all p env calls s)
unfolding perform_all
perform_all_keeps p env [] s v = v
perform_all_keeps p env (call ∷ calls) s v =
    perform_all_keeps p env calls (perform p env call s) (perform-IsBacked p env call s v)

-- After any calls on the empty state, every stored PKCE code and identity token belongs to a client
-- that is bound in the tenant of that code or token.
pub perform_all-IsBacked :
    (p : Platform) (env : TokenEnv) (calls : List Call)
    → IsBacked (perform_all p env calls empty_state)
unfolding get
perform_all-IsBacked p env calls =
    perform_all_keeps p env calls empty_state
      (record { codes = λ k code h. cc; tokens = λ k token h. cc })
