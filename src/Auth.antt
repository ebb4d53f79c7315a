-- ===== src/Auth.antt =====
-- src/api/tools/backend-auth-service.ts: API keys of a tenant, the binding of a client to its key,
-- the PKCE exchange and the session tokens. Parameters: the digests, the MAC, base64url, JSON text
-- and `Number` of the platform are the record `Platform`; `now` is `Date.now()` in milliseconds, and
-- a call that draws `randomUUID()` takes what it draws.
pub mod Base58
pub mod Tokens
pub mod Keys
pub mod Pkce
pub mod Events
pub mod Laws
pub mod Tests
pub mod TokenTests
pub mod Backed
pub mod Exchange
pub mod SignIn
pub mod Bearer
pub mod Encoded
pub mod RoundTrip
pub mod Provisioning
pub mod Created
use dataspace_ica_ts.Common.{
  ℕ, ◌/◌, String, Bool, true, false, Option, none, some, List, [], ◌∷◌, ◌==◌, if◌then◌else◌,
}
use dataspace_ica_ts.Text.{trim, to_lower}
use dataspace_ica_ts.Dict.{Dict, get}
use dataspace_ica_ts.Json.{Json, Entries}

pub record Platform : Type 0 where
  -- createHash('sha256') of a text, in hexadecimal and in base64url
  pub sha256_hex : String → String
  pub sha256_base64url : String → String
  -- createHash('sha3-256') of a text, as bytes
  pub sha3_256 : String → List ℕ
  -- createHmac('sha256', secret) of a text, as bytes
  pub hmac_sha256 : String → String → List ℕ
  -- Buffer.toString('base64url') and Buffer.from(text, 'base64url')
  pub base64url : List ℕ → String
  pub from_base64url : String → List ℕ
  -- the base64url of JSON.stringify(value), and JSON.parse of decoded text (`none` where it throws)
  pub encode_json : Json → String
  pub decode_json : String → Option Json
  -- Math.trunc(Number(text)), or 0 where that is no finite number above 0
  pub number_of_text : String → ℕ
  -- new Date(ms).toISOString()
  pub iso_string : ℕ → String

pub record ApiKey : Type 0 where
  pub key_id : String
  pub key_hash : String
  pub tenant_id : String
  pub email_hash : String
  pub scopes : List String
  pub target : String
  pub instrument : Json
  -- `actionStatus === 'active'`
  pub active : Bool
  pub disabled : Bool
  pub created_at : String
  pub created_by : String
  pub expires_at : Option String

-- `bindingStatus` has the one value 'bound'.
pub record Binding : Type 0 where
  pub tenant_id : String
  pub client_id : String
  pub api_key_hash : String
  pub controller_public_key_jwk : Json
  pub metadata : Json
  pub bound_at : ℕ
  pub device : Json

-- `codeChallengeMethod` has the one value 'S256'.
pub record PkceCode : Type 0 where
  pub tenant_id : String
  pub client_id : String
  pub code_challenge : String
  pub expires_at_epoch : ℕ

pub record IdToken : Type 0 where
  pub tenant_id : String
  pub client_id : String
  pub expires_at_epoch : ℕ

pub record AuthState : Type 0 where
  pub api_keys_by_tenant : Dict (List ApiKey)
  pub bindings_by_tenant : Dict (List Binding)
  pub pkce_codes : Dict PkceCode
  pub id_tokens : Dict IdToken

abbrev pub empty_state : AuthState
empty_state = record {
  api_keys_by_tenant = [];
  bindings_by_tenant = [];
  pkce_codes = [];
  id_tokens = [];
}

-- `map.get(key) || []`
unfoldable pub list_at {ℓ} : {V : Type ℓ} → String → Dict (List V) → List V
list_at key d = elim (get key d) [ none ↦ [] | some l ↦ l ]

-- `toLower`
unfoldable pub tenant_key : String → String
tenant_key value = to_lower (trim value)

-- Math.trunc(Date.now() / 1000)
abbrev pub epoch : ℕ → ℕ
epoch now = now / 1000
