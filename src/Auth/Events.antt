-- ===== src/Auth/Events.antt =====
-- The calls that change the state of src/api/tools/backend-auth-service.ts, in sequence. A call that
-- throws leaves the state as it was, except for the two on API keys, which return the state too.
use dataspace_ica_ts.Common.{ℕ, String, List, [], ◌∷◌, Result, ok, throw}
use dataspace_ica_ts.Auth.{Platform, AuthState}
use dataspace_ica_ts.Auth.Tokens.{TokenEnv}
use dataspace_ica_ts.Auth.Keys.{CreateAction, Selector, Mutation, create_api_keys, mutate_api_keys}
use dataspace_ica_ts.Auth.Pkce.{DcrRequest, bind_dcr, issue_pkce_code, issue_pkce_id_token}

-- The arguments of the functions of the same names, in their order.
pub data Call : Type 0 where
  creates_keys : ℕ → String → String → List CreateAction → Call
  mutates_keys : String → Mutation → List Selector → Call
  binds : ℕ → DcrRequest → Call
  issues_code : ℕ → String → String → String → String → String → Call
  issues_id_token : ℕ → String → String → String → String → String → Call

abbrev pub state_or : AuthState → Result AuthState → AuthState
state_or s (ok s') = s'
state_or s (throw _) = s

abbrev pub reply_state_or : AuthState → Result (AuthState × String) → AuthState
reply_state_or s (ok reply) = reply.0
reply_state_or s (throw _) = s

unfoldable pub perform : Platform → TokenEnv → Call → AuthState → AuthState
perform p env (creates_keys now tenant actor actions) s =
    (create_api_keys p now tenant actor actions s).0
perform p env (mutates_keys tenant action selectors) s =
    (mutate_api_keys tenant action selectors s).0
perform p env (binds now request) s = state_or s (bind_dcr p now request s)
perform p env (issues_code now uuid tenant client challenge method) s =
    reply_state_or s (issue_pkce_code now uuid tenant client challenge method s)
perform p env (issues_id_token now uuid tenant client code verifier) s =
    reply_state_or s (issue_pkce_id_token p env now uuid tenant client code verifier s)

unfoldable pub perform_all : Platform → TokenEnv → List Call → AuthState → AuthState
unfolding perform
perform_all p env [] s = s
perform_all p env (call ∷ calls) s = perform_all p env calls (perform p env call s)
