-- ===== src/Auth/Tests.antt =====
-- Runs of src/api/tools/backend-auth-service.ts at small stand-ins for the platform.
use dataspace_ica_ts.Common.{
  ℕ, ◌+◌, ◌*◌, length, String, ◌≡◌, ◌↔◌, refl, false, some, List, [], ◌∷◌, ◌++◌, map, arith,
  is_empty, ok, throw,
}
use dataspace_ica_ts.Text.{trim, to_lower, to_upper, join}
use dataspace_ica_ts.Dict.{get, put}
use dataspace_ica_ts.Json.{Json, null, obj, end}
use dataspace_ica_ts.Auth.{
  Platform, ApiKey, PkceCode, AuthState, empty_state, list_at, tenant_key, epoch,
}
use dataspace_ica_ts.Auth.Keys.{
  CreateAction, check_action, new_key, create_keys, keep_created, create_api_keys, Selector,
  disable, mutate_api_keys, mutate_keys, mutate_selected, disable_selected, disabled_key,
  is_selected, reported,
}
use dataspace_ica_ts.Auth.Tokens.{TokenEnv, session_secret}
use dataspace_ica_ts.Auth.Pkce
use dataspace_ica_ts.Auth.Pkce.{
  bind_dcr, is_bound, issue_pkce_code, issue_pkce_id_token, pkce_id_token, exchange_identity_token,
}
use dataspace_ica_ts.Auth.Laws.{IsRedeemable}
use dataspace_ica_ts.Auth.Events.{Call, creates_keys, binds, issues_code, perform_all}
use dataspace_ica_ts.Auth.Backed.{IsBacked, perform_all-IsBacked}
use dataspace_ica_ts.Auth.Exchange.{
  issue_pkce_id_token_iff, issue_pkce_id_token-again, mutate_api_keys-exchange,
}
use dataspace_ica_ts.Auth.Base58.{base58_digits, big_endian}
use dataspace_ica_ts.Auth.Base58.Fuel.{base58_digits-enough}
use dataspace_ica_ts.Auth.Created.{AllToldOf, create_api_keys_complete}
use dataspace_ica_ts.Auth.Provisioning.{
  is_named, disabled_if, mutate_api_keys-disable, AllComplete, create_api_keys_incomplete,
}

-- Digests that keep the text, and a base64url that has one text.
abbrev pub platform : Platform
platform = record {
  sha256_hex = λ text. text;
  sha256_base64url = λ text. text;
  sha3_256 = λ text. [];
  hmac_sha256 = λ secret text. 7 ∷ [];
  base64url = λ bytes. "Bw";
  from_base64url = λ text. 7 ∷ [];
  encode_json = λ value. "e30";
  decode_json = λ text. some (obj end);
  number_of_text = λ text. 0;
  iso_string = λ ms. "2026-01-01T00:00:00.000Z";
}

abbrev pub env : TokenEnv
env = record {
  ica_exchange_session_token_secret = "s3cret";
  exchange_session_token_secret = "";
  ica_auth_session_token_secret = "";
  issuer_did = "";
  audience_did = "";
  ttl_seconds = 900;
}

abbrev pub action : CreateAction
action = record {
  email = "ops@acme.example";
  scopes = "ica.backend.read" ∷ [];
  target = "backend";
  instrument = null;
  expires_in_seconds = 0;
  secret = "1";
  key_id = "key-1";
}

abbrev no_scope : CreateAction
no_scope = record action { scopes = []; key_id = "key-2"; secret = "2" }

abbrev pub request : Pkce.DcrRequest
request = record {
  tenant_id = "acme";
  client_id = "ica_k_1";
  controller_public_key_jwk = null;
  metadata = null;
  device = null;
}

abbrev pub calls : List Call
calls =
    creates_keys 1000 "Acme" "did:web:controller" (action ∷ [])
    ∷ binds 2000 request
    ∷ issues_code 3000 "code-1" "acme" "ica_k_1" "verifier" "S256"
    ∷ []

abbrev pub provisioned : AuthState
provisioned = perform_all platform env calls empty_state

perform_all-IsBacked_example : IsBacked (perform_all platform env calls empty_state)
perform_all-IsBacked_example = perform_all-IsBacked platform env calls

abbrev code : PkceCode
code = record {
  tenant_id = "acme";
  client_id = "ica_k_1";
  code_challenge = "verifier";
  expires_at_epoch = 303;
}

provisioned_code : get "code-1" provisioned.pkce_codes ≡ some code
unfolding perform_all create_api_keys keep_created create_keys check_action new_key bind_dcr
    issue_pkce_code get put list_at trim to_lower tenant_key to_upper join
provisioned_code = refl

redeemable :
    IsRedeemable platform env
      (epoch 4000)
      (tenant_key "acme")
      (trim "ica_k_1")
      (trim "verifier")
      code
unfolding tenant_key trim to_lower session_secret
redeemable = record {
  client_given = refl;
  verifier_given = refl;
  unexpired = refl;
  same_tenant = refl;
  same_client = refl;
  verified = refl;
  configured = refl;
}

issue_pkce_id_token_iff_example :
    ((reply : AuthState × String) × (issue_pkce_id_token platform env 4000 "u" "acme" "ica_k_1"
          "code-1" "verifier" provisioned
        ≡ ok reply))
    ↔ ((issued : PkceCode) × (is_empty (trim "code-1") ≡ false)
        × (get (trim "code-1") provisioned.pkce_codes ≡ some issued)
        × IsRedeemable platform env
            (epoch 4000)
            (tenant_key "acme")
            (trim "ica_k_1")
            (trim "verifier")
            issued)
issue_pkce_id_token_iff_example =
    issue_pkce_id_token_iff platform env 4000 "u" "acme" "ica_k_1" "code-1" "verifier" provisioned
      (perform_all-IsBacked platform env calls)

redeemed :
    (reply : AuthState × String) × (issue_pkce_id_token platform env 4000 "u" "acme" "ica_k_1"
        "code-1" "verifier" provisioned
      ≡ ok reply)
redeemed =
    (issue_pkce_id_token_iff platform env 4000 "u" "acme" "ica_k_1" "code-1" "verifier" provisioned
        (perform_all-IsBacked platform env calls)).1
      (code, unfold trim in refl, unfold trim in provisioned_code, redeemable)

issue_pkce_id_token-again_example :
    (second : AuthState × String) × (issue_pkce_id_token platform env 5000 "v" "acme" "ica_k_1"
        "code-1" "verifier" redeemed.0.0
      ≡ ok second)
issue_pkce_id_token-again_example =
    issue_pkce_id_token-again platform env 4000 5000 "u" "v" "acme" "ica_k_1" "code-1" "verifier"
      provisioned code redeemed.0 redeemed.1 (unfold trim in provisioned_code) refl

abbrev by_id : Selector
by_id = record { identifier = "key-1"; email_hash = "" }

mutate_api_keys-exchange_example :
    (is_bound "acme" "ica_k_1" (mutate_api_keys "acme" disable (by_id ∷ []) provisioned).0
      ≡ is_bound "acme" "ica_k_1" provisioned)
    × (exchange_identity_token platform env 6000 "w" "acme" "ica_k_1" "token"
          (mutate_api_keys "acme" disable (by_id ∷ []) provisioned).0
        ≡ exchange_identity_token platform env 6000 "w" "acme" "ica_k_1" "token" provisioned)
mutate_api_keys-exchange_example =
    mutate_api_keys-exchange platform env 6000 "w" "acme" "ica_k_1" "token" "acme" disable
      (by_id ∷ []) provisioned

mutate_disabled :
    (reply : List ApiKey) × ((mutate_api_keys "acme" disable (by_id ∷ []) provisioned).1 ≡ ok reply)
unfolding mutate_api_keys mutate_keys mutate_selected disable_selected disabled_key is_selected
    reported perform_all create_api_keys keep_created create_keys check_action new_key bind_dcr
    issue_pkce_code get put list_at trim to_lower tenant_key to_upper join
mutate_disabled = (_, refl)

mutate_api_keys-disable_example :
    list_at
      (tenant_key "acme")
      (mutate_api_keys "acme" disable (by_id ∷ []) provisioned).0.api_keys_by_tenant
    ≡ map
        (λ key. disabled_if (is_named (by_id ∷ []) key) key)
        (list_at (tenant_key "acme") provisioned.api_keys_by_tenant)
mutate_api_keys-disable_example =
    mutate_api_keys-disable "acme" (by_id ∷ []) provisioned mutate_disabled.0 mutate_disabled.1

complete : AllComplete (action ∷ [])
unfolding check_action tenant_key trim to_lower
complete = (refl, tt)

create_api_keys_complete_example :
    let keys = map (new_key platform 1000 (tenant_key "beta") "did:web:controller") (action ∷ []) in
    let (after, reply) =
      create_api_keys platform 1000 "beta" "did:web:controller" (action ∷ []) provisioned in
    (list_at (tenant_key "beta") after.api_keys_by_tenant
      ≡ list_at (tenant_key "beta") provisioned.api_keys_by_tenant ++ keys)
    × (resources : List Json) × (reply ≡ ok resources)
    × AllToldOf platform keys resources
create_api_keys_complete_example =
    create_api_keys_complete platform 1000 "beta" "did:web:controller" (action ∷ []) provisioned
      complete

abbrev old_keys : List ApiKey
old_keys = new_key platform 1000 "acme" "did:web:controller" action ∷ []

create_api_keys_incomplete_example :
    let (s', reply) =
      create_api_keys platform 1000 "acme" "did:web:controller"
        (action ∷ no_scope ∷ [])
        provisioned in
    (list_at (tenant_key "acme") s'.api_keys_by_tenant
      ≡ old_keys
        ++ map (new_key platform 1000 (tenant_key "acme") "did:web:controller") (action ∷ []))
    × (reply ≡ throw "scope is required for each action.")
create_api_keys_incomplete_example =
    create_api_keys_incomplete platform 1000 "acme" "did:web:controller"
      "scope is required for each action." (action ∷ []) [] no_scope old_keys provisioned complete
      (unfold check_action tenant_key trim to_lower in refl)
      (unfold perform_all create_api_keys keep_created create_keys check_action new_key bind_dcr
          issue_pkce_code get put list_at trim to_lower tenant_key to_upper join in
        refl)

base58_digits-enough_example :
    base58_digits (7 + 2 * length {A = ℕ} (22 ∷ 255 ∷ [])) (big_endian 0 (22 ∷ 255 ∷ [])) ""
    ≡ base58_digits (2 * length {A = ℕ} (22 ∷ 255 ∷ [])) (big_endian 0 (22 ∷ 255 ∷ [])) ""
base58_digits-enough_example =
    base58_digits-enough (22 ∷ 255 ∷ []) 7 (ground arith, (ground arith, tt))
