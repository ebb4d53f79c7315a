-- ===== src/Auth/Keys.antt =====
-- The API keys of a tenant: `createApiKeys`, `mutateApiKeys` and `listApiKeysWithBindings` of
-- src/api/tools/backend-auth-service.ts. The list of a tenant that is known is changed in place, so
-- what was done before a throw stays; a list made for a new tenant is kept only at the end.
use dataspace_ica_ts.Common.{
  ℕ, ◌+◌, ◌*◌, String, Bool, true, false, not, ◌&&◌, ◌||◌, Option, none, some, List, [], ◌∷◌, ◌++◌,
  map, keep, ◌==◌, is_nil, is_some, is_empty, eqb, if◌then◌else◌, Result, ok, throw, ◌>>=◌, ◌>>◌,
  reject_if,
}
use dataspace_ica_ts.Text.{trim, join}
use dataspace_ica_ts.Dict.{get, put}
use dataspace_ica_ts.Json.{Json, str, array, object, if_text}
use dataspace_ica_ts.Auth.{Platform, ApiKey, Binding, AuthState, list_at, tenant_key}
use dataspace_ica_ts.Auth.Base58.{sha3_256_multibase}

-- One action of `_create`, with the two UUIDs that it draws: `secret` is the first without its
-- dashes, `key_id` the second. No expiry is 0.
pub record CreateAction : Type 0 where
  pub email : String
  pub scopes : List String
  pub target : String
  pub instrument : Json
  pub expires_in_seconds : ℕ
  pub secret : String
  pub key_id : String

unfoldable pub api_key_text : CreateAction → String
api_key_text action = join "" ("ica_k_" ∷ action.secret ∷ [])

unfoldable pub check_action : CreateAction → Result (Unit {0})
unfolding tenant_key
check_action action = do
  reject_if (is_empty (tenant_key action.email)) "agent.email is required for each action."
  reject_if (is_nil action.scopes) "scope is required for each action."

unfoldable pub new_key : Platform → ℕ → String → String → CreateAction → ApiKey
unfolding api_key_text tenant_key
new_key p now tenant actor action = record {
  key_id = action.key_id;
  key_hash = p.sha256_hex (api_key_text action);
  tenant_id = tenant;
  email_hash = sha3_256_multibase p (tenant_key action.email);
  scopes = action.scopes;
  target = action.target;
  instrument = action.instrument;
  active = true;
  disabled = false;
  created_at = p.iso_string now;
  created_by = actor;
  expires_at =
      if eqb action.expires_in_seconds 0
      then none
      else some (p.iso_string (now + action.expires_in_seconds * 1000));
}

-- The loop over the actions: the keys that were made, and the error that stopped it.
unfoldable pub create_keys :
    Platform → ℕ → String → String → List CreateAction → List ApiKey × Result (Unit {0})
create_keys p now tenant actor [] = ([], ok tt)
create_keys p now tenant actor (action ∷ actions) =
    let (keys, outcome) = create_keys p now tenant actor actions in
    elim (check_action action) [
      | throw message ↦ ([], throw message)
      | ok _ ↦ (new_key p now tenant actor action ∷ keys, outcome)
    ]

unfoldable pub keep_created : AuthState → String → List ApiKey → Result (Unit {0}) → AuthState
keep_created s tenant keys outcome =
    let kept = record s {
      api_keys_by_tenant =
          put tenant (list_at tenant s.api_keys_by_tenant ++ keys) s.api_keys_by_tenant;
    } in
    elim outcome [
      | ok _ ↦ kept
      | throw _ ↦ if is_some (get tenant s.api_keys_by_tenant) then kept else s
    ]

abbrev pub expires_entry : Option String → List (String × Json)
expires_entry none = []
expires_entry (some at) = if_text "expiresAt" at

-- What the caller is told of a new key, its text included, which is not kept.
unfoldable pub created_resource : ApiKey → String → Json
created_resource key text = object (
    (
      "resource",
      object (
          ("@context", str "https://schema.org")
          ∷ ("@type", str "Person")
          ∷ ("identifier", str key.key_id)
          ∷ ("keyHash", str key.key_hash)
          ∷ ("actionStatus", str "active")
          ∷ ("bindingStatus", str "pending_dcr")
          ∷ ("agent", object (("sameAs", str key.email_hash) ∷ []))
          ∷ ("target", str key.target)
          ∷ ("scope", array (map str key.scopes))
          ∷ ("instrument", key.instrument)
          ∷ ("tenantId", str key.tenant_id)
          ∷ (expires_entry key.expires_at ++ (("apiKey", str text) ∷ []))),
    )
    ∷ [])

unfoldable pub created_resources : Platform → ℕ → String → String → List CreateAction → List Json
unfolding created_resource api_key_text
created_resources p now tenant actor actions =
    map (λ action. created_resource (new_key p now tenant actor action) (api_key_text action))
      actions

-- `createApiKeys`: the keys are stored as the loop makes them, and one resource for each is returned
-- where no action throws.
unfoldable pub create_api_keys :
    Platform → ℕ → String → String → List CreateAction → AuthState → AuthState × Result (List Json)
unfolding keep_created created_resources
create_api_keys p now tenant_id actor actions s =
    let tenant = tenant_key tenant_id in
    let (keys, outcome) = create_keys p now tenant actor actions in
    (
      keep_created s tenant keys outcome,
      outcome >> ok (created_resources p now tenant actor actions),
    )

pub record Selector : Type 0 where
  pub identifier : String
  pub email_hash : String

pub data Mutation : Type 0 where
  disable remove : Mutation

unfoldable pub is_selected : Selector → ApiKey → Bool
is_selected selector key =
    let identifier = trim selector.identifier in
    let email_hash = trim selector.email_hash in
    not (is_empty identifier) && key.key_id == identifier
    || not (is_empty email_hash) && key.email_hash == email_hash

unfoldable pub disabled_key : ApiKey → ApiKey
disabled_key key = record key { active = false; disabled = true }

-- `item.disabled = true` on each matched entry.
unfoldable pub disable_selected : Selector → List ApiKey → List ApiKey
unfolding disabled_key
disable_selected selector [] = []
disable_selected selector (key ∷ keys) =
    (if is_selected selector key then disabled_key key else key) ∷ disable_selected selector keys

-- `entries.splice(entries.findIndex(c => c.keyId === keyId), 1)`
unfoldable pub remove_first : String → List ApiKey → List ApiKey
remove_first key_id [] = []
remove_first key_id (key ∷ keys) =
    let rest = remove_first key_id keys in if key.key_id == key_id then keys else key ∷ rest

unfoldable pub remove_each : List ApiKey → List ApiKey → List ApiKey
unfolding remove_first
remove_each [] keys = keys
remove_each (m ∷ matched) keys = remove_each matched (remove_first m.key_id keys)

unfoldable pub mutate_selected : Mutation → Selector → List ApiKey → List ApiKey
unfolding disable_selected remove_each
mutate_selected disable selector keys = disable_selected selector keys
mutate_selected remove selector keys = remove_each (keep (is_selected selector) keys) keys

-- The keys that the reply names: a disabled key is reported as changed.
unfoldable pub reported : Mutation → ApiKey → ApiKey
unfolding disabled_key
reported disable key = disabled_key key
reported remove key = key

-- The loop over the selectors: the tenant's keys after it, and the matched keys or the error.
unfoldable pub mutate_keys :
    Mutation → List Selector → List ApiKey → List ApiKey × Result (List ApiKey)
unfolding mutate_selected reported
mutate_keys action [] keys = (keys, ok [])
mutate_keys action (selector ∷ selectors) keys =
    let matched = keep (is_selected selector) keys in
    let (after, outcome) = mutate_keys action selectors (mutate_selected action selector keys) in
    if is_nil matched
    then (keys, throw "No API key matched selector.")
    else (after, (do rest ← outcome; ok (map (reported action) matched ++ rest)))

-- `mutateApiKeys`
unfoldable pub mutate_api_keys :
    String → Mutation → List Selector → AuthState → AuthState × Result (List ApiKey)
mutate_api_keys tenant_id action selectors s =
    let tenant = tenant_key tenant_id in
    let known = is_some (get tenant s.api_keys_by_tenant) in
    let (keys, outcome) = mutate_keys action selectors (list_at tenant s.api_keys_by_tenant) in
    if is_nil selectors then (s, throw "data must include at least one selector.") else (
      (if known then record s { api_keys_by_tenant = put tenant keys s.api_keys_by_tenant } else s),
      outcome,
    )

unfoldable pub bindings_of_key : List Binding → ApiKey → List Binding
bindings_of_key bindings key = keep (λ (b : Binding). b.api_key_hash == key.key_hash) bindings

-- `listApiKeysWithBindings`: each key with its bindings; it is 'bound' if there is one.
unfoldable pub list_api_keys_with_bindings : String → AuthState → List (ApiKey × List Binding)
unfolding list_at bindings_of_key
list_api_keys_with_bindings tenant_id s =
    let tenant = tenant_key tenant_id in
    map (λ key. (key, bindings_of_key (list_at tenant s.bindings_by_tenant) key))
      (list_at tenant s.api_keys_by_tenant)
