-- ===== src/Auth/Exchange.antt =====
-- The exchange of a client's code for an identity token and of that for an access token, in
-- src/api/tools/backend-auth-service.ts.
use mathlib.Core.Path.{subst}
use dataspace_ica_ts.Common.{
  ℕ, String, ◌≡◌, ◌↔◌, refl, sym, ◌∙◌, false, some, List, arith, ltb, is_empty, ok,
}
use dataspace_ica_ts.Text.{trim}
use dataspace_ica_ts.Dict.{get}
use dataspace_ica_ts.Auth.{Platform, PkceCode, AuthState, tenant_key, epoch}
use dataspace_ica_ts.Auth.Keys.{Mutation, Selector, mutate_api_keys}
use dataspace_ica_ts.Auth.Tokens.{TokenEnv}
use dataspace_ica_ts.Auth.Pkce.{
  is_bound, assert_bound_client, issue_pkce_id_token, exchange_identity_token,
}
use dataspace_ica_ts.Auth.Laws.{
  IsRedeemable, issue_pkce_id_token-ok, issue_pkce_id_token-reply, issue_pkce_id_token-redeemable,
}
use dataspace_ica_ts.Auth.Backed.{IsBacked, mutate_api_keys-keeps}

-- In a state whose codes are backed, the call returns an identity token exactly if the text names
-- a stored code, client and verifier are not blank, the code was issued for that client, tenant
-- and verifier, it has not expired, and a session secret is configured.
pub issue_pkce_id_token_iff :
    (p : Platform) (env : TokenEnv) (now : ℕ) (uuid tenant client code verifier : String)
    (s : AuthState)
    → IsBacked s
    → ((reply : AuthState × String) × (issue_pkce_id_token p env now uuid tenant client code
            verifier s
          ≡ ok reply))
      ↔ ((issued : PkceCode) × (is_empty (trim code) ≡ false)
          × (get (trim code) s.pkce_codes ≡ some issued)
          × IsRedeemable p env (epoch now) (tenant_key tenant) (trim client) (trim verifier) issued)
unfolding issue_pkce_id_token
issue_pkce_id_token_iff p env now uuid tenant client code verifier s v = (
  (λ (reply, h).
      let (issued, e, r, _) =
        issue_pkce_id_token-ok p env now uuid tenant client code verifier s reply h in
      (issued, ground arith, e, r)),
  (λ (issued, given, e, r).
      let bound = rw (r.same_tenant, r.same_client) at (v.codes (trim code) issued e) in
      (
        _,
        issue_pkce_id_token-redeemable p env now uuid tenant client code verifier s issued given e r
            bound,
      )),
)

some_inj : {A : Type 0} (a b : A) → some a ≡ some b → a ≡ b
some_inj a b e = cc

IsRedeemable-later :
    (p : Platform) (env : TokenEnv) (at later : ℕ) (tenant client verifier : String)
    (found issued : PkceCode)
    → found ≡ issued
    → ltb issued.expires_at_epoch later ≡ false
    → IsRedeemable p env at tenant client verifier found
    → IsRedeemable p env later tenant client verifier issued
IsRedeemable-later p env at later tenant client verifier found issued same fresh r = record {
  client_given = r.client_given;
  verifier_given = r.verifier_given;
  unexpired = fresh;
  same_tenant = rw (← same) r.same_tenant;
  same_client = rw (← same) r.same_client;
  verified = rw (← same) r.verified;
  configured = r.configured;
}

-- A code that was redeemed is redeemed again, by the same client with the same verifier, as long as
-- it has not expired.
pub issue_pkce_id_token-again :
    (p : Platform) (env : TokenEnv) (now later : ℕ)
    (uuid again tenant client code verifier : String) (s : AuthState) (issued : PkceCode)
    (reply : AuthState × String)
    → issue_pkce_id_token p env now uuid tenant client code verifier s ≡ ok reply
    → get (trim code) s.pkce_codes ≡ some issued
    → ltb issued.expires_at_epoch (epoch later) ≡ false
    → (second : AuthState × String) × (issue_pkce_id_token p env later again tenant client code
          verifier reply.0
        ≡ ok second)
unfolding issue_pkce_id_token is_bound
issue_pkce_id_token-again p env now later uuid again tenant client code verifier s issued reply h e
      fresh =
    let (found, f, r, bound) =
      issue_pkce_id_token-ok p env now uuid tenant client code verifier s reply h in
    let same : found ≡ issued = some_inj _ _ (sym f ∙ e) in
    let kept = (issue_pkce_id_token-reply p env now uuid tenant client code verifier s reply h).0 in
    let r' : IsRedeemable p env (epoch later) (tenant_key tenant) (trim client) (trim verifier)
        issued =
      IsRedeemable-later p env (epoch now) (epoch later) (tenant_key tenant) (trim client)
        (trim verifier) found issued same fresh r in
    let given : is_empty (trim code) ≡ false = ground arith in
    subst
      (λ x.
        (second : AuthState × String) × (issue_pkce_id_token p env later again tenant client code
            verifier x
          ≡ ok second))
      kept
      (
        _,
        issue_pkce_id_token-redeemable p env later again tenant client code verifier _ issued given
            e r' bound,
      )

-- Disabling or removing API keys unbinds no client and changes no answer to the exchange of an
-- identity token: a client whose key is disabled or removed gets access tokens as before.
pub mutate_api_keys-exchange :
    (p : Platform) (env : TokenEnv) (now : ℕ) (uuid tenant client token : String) (owner : String)
    (action : Mutation) (selectors : List Selector) (s : AuthState)
    → (is_bound tenant client (mutate_api_keys owner action selectors s).0
        ≡ is_bound tenant client s)
      × (exchange_identity_token p env now uuid tenant client token
            (mutate_api_keys owner action selectors s).0
          ≡ exchange_identity_token p env now uuid tenant client token s)
unfolding exchange_identity_token assert_bound_client is_bound
mutate_api_keys-exchange p env now uuid tenant client token owner action selectors s =
    let e = mutate_api_keys-keeps owner action selectors s in (rw e refl, rw e refl)
