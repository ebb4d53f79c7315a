-- ===== src/Auth/TokenTests.antt =====
-- Runs of the sign-in and of the session tokens of src/api/tools/backend-auth-service.ts.
use dataspace_ica_ts.Common.{
  String, ◌≡◌, ◌⊎◌, refl, true, false, none, some, List, [], ◌∷◌, arith, is_empty, is_some, ◌==◌,
  ok, if◌then◌else◌,
}
use dataspace_ica_ts.Text.{is_space, trim, to_lower, to_upper, join}
use dataspace_ica_ts.Auth.Tests.{platform, env, provisioned}
use dataspace_ica_ts.Dict.{get, put}
use dataspace_ica_ts.Json.{Json, Entries, obj, str, object, field, as_string}
use dataspace_ica_ts.Config.Security.{
  strict, SecurityEnv, SecurityConfig, load_security_config, assert_startup_guardrails,
}
use dataspace_ica_ts.Auth.{Platform, list_at, tenant_key, epoch}
use dataspace_ica_ts.Auth.Keys.{check_action, new_key, create_keys, keep_created, create_api_keys}
use dataspace_ica_ts.Auth.Tokens.{
  SessionClaims, IssuedToken, ParsedJwt, session_secret, build_jwt, claims_json, issue_access_token,
  validate_bearer_access, skips_signature, claims_of,
}
use dataspace_ica_ts.Auth.Pkce.{bind_dcr, is_bound, issue_pkce_code, pkce_id_token}
use dataspace_ica_ts.Auth.Events.{perform_all}
use dataspace_ica_ts.Auth.SignIn.{IsClient, sign_in, sign_in-bound}
use dataspace_ica_ts.Auth.Bearer.{
  IsBearer, IsSigned, validate_bearer_access-ok, skips_signature-production,
}
use dataspace_ica_ts.Auth.Encoded.{IsCodec}
use dataspace_ica_ts.Auth.RoundTrip.{validate_bearer_access-issued}

abbrev id_token : String
id_token = pkce_id_token platform env 4000 "u" (tenant_key "acme") "ica_k_1"

key-IsClient : IsClient platform env "ica_k_1" "verifier" "verifier" "code-2"
unfolding trim session_secret
key-IsClient = record {
  client_kept = refl;
  client_given = refl;
  verifier_given = refl;
  challenge_kept = refl;
  challenge_given = refl;
  challenged = refl;
  code_kept = refl;
  code_given = refl;
  configured = refl;
}

provisioned_bound : is_bound (tenant_key "acme") "ica_k_1" provisioned ≡ true
unfolding is_bound perform_all create_api_keys keep_created create_keys check_action new_key
    bind_dcr issue_pkce_code get put list_at trim to_lower tenant_key to_upper join
provisioned_bound = refl

sign_in-bound_example :
    (access : IssuedToken) × (sign_in platform env
        (3000, 4000, 5000)
        ("code-2", "u", "v")
        "acme"
        "ica_k_1"
        "verifier"
        "verifier"
        provisioned
      ≡ ok access)
    × (access.claims.client_id ≡ "ica_k_1")
    × (access.claims.scopes ≡ ("ica.backend.read" ∷ "ica.catalog.read" ∷ []))
    × (access.claims.organization ≡ tenant_key (tenant_key "acme"))
    × (access.claims.exp ≡ 905)
sign_in-bound_example =
    sign_in-bound platform env 3000 4000 5000 "u" "v" "acme" "ica_k_1" "verifier" "verifier"
      "code-2" "e30.e30.Bw" provisioned key-IsClient provisioned_bound (ground arith) (ground arith)
      (unfold pkce_id_token session_secret build_jwt join trim in refl) (unfold trim in refl) refl

abbrev session : SessionClaims
session = record {
  iss = "did:web:localhost%3A3310";
  sub = "backend:ica_k_1";
  aud = "did:web:localhost%3A3310";
  iat = 5;
  exp = 905;
  jti = "v";
  organization = "acme";
  scope = "ica.backend.read ica.catalog.read";
  scopes = "ica.backend.read" ∷ "ica.catalog.read" ∷ [];
  client_id = "ica_k_1";
}

abbrev encoded : Json → String
encoded (obj es) = if is_some (field "alg" es) then "aGRy" else "cGF5"
encoded _ = "cGF5"

-- A platform that reads the two parts of one token.
abbrev reader : Platform
reader = record platform {
  encode_json = encoded;
  decode_json = λ text.
      if text == "aGRy"
      then some (object (("alg", str "HS256") ∷ ("typ", str "JWT") ∷ []))
      else some (claims_json session);
}

abbrev issued : IssuedToken
issued = record { access_token = "aGRy.cGF5.Bw"; expires_in = 900; claims = session }

abbrev backend_scopes : List String
backend_scopes = "ica.backend.read" ∷ "ica.catalog.read" ∷ []

session_issued :
    issue_access_token reader env 5000 "v" "backend:ica_k_1" "acme" backend_scopes "ica_k_1"
    ≡ ok issued
unfolding issue_access_token session_secret claims_json build_jwt tenant_key trim to_lower join
    field
session_issued = refl

session-IsCodec : IsCodec reader (session_secret env) (claims_json session)
unfolding claims_json field is_space
session-IsCodec = record {
  reads_header = refl;
  reads_payload = refl;
  reads_mac = λ text. refl;
  plain_header = record {
    dotless = (refl, (refl, (refl, (refl, tt))));
    unspaced = (refl, (refl, (refl, (refl, tt))));
  };
  plain_payload = record {
    dotless = (refl, (refl, (refl, (refl, tt))));
    unspaced = (refl, (refl, (refl, (refl, tt))));
  };
  plain_mac = λ text. record { dotless = (refl, (refl, tt)); unspaced = (refl, (refl, tt)) };
}

abbrev production : SecurityEnv
production = record {
  security_mode = some "strict";
  demo_mode = some "true";
  json_legacy = none;
  demo_allow_insecure_bearer = some "true";
  allow_legacy_didcomm_plaintext_media_type = none;
  allow_legacy_contract = some "true";
  node_env = some " Production ";
}

abbrev strict_config : SecurityConfig
strict_config = record {
  security_mode = strict;
  json_legacy = false;
  demo_allow_insecure_bearer = true;
  allow_legacy_didcomm_plaintext_media_type = false;
  allow_legacy_contract = false;
}

skips_signature-production_example : skips_signature strict_config ≡ false
skips_signature-production_example =
    skips_signature-production production strict_config
      (unfold load_security_config trim to_lower in refl)
      (unfold assert_startup_guardrails trim to_lower in refl) (unfold trim to_lower in refl)

acme_named : is_empty (tenant_key "acme") ≡ false
unfolding tenant_key trim to_lower
acme_named = refl

accepted :
    (read : SessionClaims) × (validate_bearer_access reader env strict_config 6000
        (join "" ("Bearer " ∷ issued.access_token ∷ []))
        "acme"
      ≡ ok read)
    × (read.organization ≡ issued.claims.organization)
    × (read.sub ≡ trim "backend:ica_k_1")
    × (read.exp ≡ issued.claims.exp)
    × (read.client_id ≡ trim "ica_k_1")
accepted =
    validate_bearer_access-issued reader env strict_config 5000 6000 "v" "backend:ica_k_1" "acme"
      "ica_k_1" backend_scopes issued session_issued session-IsCodec acme_named (λ e. ground arith)
      (ground arith) (ground arith)

validate_bearer_access-issued_example :
    (read : SessionClaims) × (validate_bearer_access reader env strict_config 6000
        (join "" ("Bearer " ∷ issued.access_token ∷ []))
        "acme"
      ≡ ok read)
    × (read.organization ≡ issued.claims.organization)
    × (read.sub ≡ trim "backend:ica_k_1")
    × (read.exp ≡ issued.claims.exp)
    × (read.client_id ≡ trim "ica_k_1")
validate_bearer_access-issued_example =
    validate_bearer_access-issued reader env strict_config 5000 6000 "v" "backend:ica_k_1" "acme"
      "ica_k_1" backend_scopes issued session_issued session-IsCodec acme_named (λ e. ground arith)
      (ground arith) (ground arith)

validate_bearer_access-ok_example :
    (token : String) × (jwt : ParsedJwt) × (header : Entries) × (payload : Entries) × IsBearer
      reader
      (join "" ("Bearer " ∷ issued.access_token ∷ []))
      token
      jwt
      payload
    × IsSigned reader env (epoch 6000) jwt header payload
    × (accepted.0 ≡ claims_of reader payload)
    × (as_string (field "token_use" payload) ≡ "dataconv_access")
    × (is_empty accepted.0.organization ≡ false)
    × ((is_empty "acme" ≡ true) ⊎ (accepted.0.organization ≡ tenant_key "acme"))
validate_bearer_access-ok_example =
    validate_bearer_access-ok reader env strict_config 6000
      (join "" ("Bearer " ∷ issued.access_token ∷ [])) "acme" accepted.0
      (unfold skips_signature in refl) accepted.1
