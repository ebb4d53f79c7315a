-- ===== src/Auth/Created.antt =====
-- What `createApiKeys` of src/api/tools/backend-auth-service.ts stores, and what it tells the caller.
use dataspace_ica_ts.Common.{
  ℕ, String, ◌≡◌, refl, ◌∙◌, Option, none, some, List, [], ◌∷◌, ◌++◌, map, eq_refl, is_empty,
  Bool-cases, inl, inr, ok, if◌then◌else◌,
}
use dataspace_ica_ts.Json.{Json, of_entries, str, obj, array, field, as_object, object_field}
use dataspace_ica_ts.Auth.{Platform, ApiKey, AuthState, list_at, tenant_key}
use dataspace_ica_ts.Auth.Laws.{list_at-put}
use dataspace_ica_ts.Auth.Keys.{
  CreateAction, new_key, keep_created, created_resource, created_resources, expires_entry,
  api_key_text, create_api_keys,
}
use dataspace_ica_ts.Auth.Provisioning.{AllComplete, create_keys_complete}

-- A member of the resource of a reply.
abbrev pub member : String → Json → Option Json
member name (obj reply) = object_field name (as_object (field "resource" reply))
member name _ = none

-- A text that is there and not empty, as a JSON value.
abbrev pub shown_text : Option String → Option Json
shown_text none = none
shown_text (some text) = if is_empty text then none else some (str text)

-- A reply tells of a key: its text, whose digest is the hash that is stored, and what is stored.
pub record IsToldOf (p : Platform) (key : ApiKey) (reply : Json) : Type 0 where
  pub text : String
  pub secret : member "apiKey" reply ≡ some (str text)
  pub hashed : p.sha256_hex text ≡ key.key_hash
  pub hash : member "keyHash" reply ≡ some (str key.key_hash)
  pub identifier : member "identifier" reply ≡ some (str key.key_id)
  pub agent : object_field "sameAs" (as_object (member "agent" reply)) ≡ some (str key.email_hash)
  pub target : member "target" reply ≡ some (str key.target)
  pub scopes : member "scope" reply ≡ some (array (map str key.scopes))
  pub instrument : member "instrument" reply ≡ some key.instrument
  pub tenant : member "tenantId" reply ≡ some (str key.tenant_id)
  pub expiry : member "expiresAt" reply ≡ shown_text key.expires_at
  pub unbound : member "bindingStatus" reply ≡ some (str "pending_dcr")

-- One reply for each key, in their order.
abbrev pub AllToldOf : Platform → List ApiKey → List Json → Type 0
AllToldOf p [] [] = Unit
AllToldOf p (key ∷ keys) (reply ∷ replies) = IsToldOf p key reply × AllToldOf p keys replies
AllToldOf p _ _ = ⊥

field-api_key :
    (at : Option String) (text : String)
    → field "apiKey" (of_entries (expires_entry at ++ (("apiKey", str text) ∷ [])))
      ≡ some (str text)
unfolding field
field-api_key none text = refl
field-api_key (some at) text = elim (Bool-cases (is_empty at)) [
  | inl blank ↦ rw blank refl
  | inr full ↦ rw full refl
]

field-expires_at :
    (at : Option String) (text : String)
    → field "expiresAt" (of_entries (expires_entry at ++ (("apiKey", str text) ∷ [])))
      ≡ shown_text at
unfolding field
field-expires_at none text = refl
field-expires_at (some at) text = elim (Bool-cases (is_empty at)) [
  | inl blank ↦ rw blank refl
  | inr full ↦ rw full refl
]

created_resource-IsToldOf :
    (p : Platform) (key : ApiKey) (text : String)
    → p.sha256_hex text ≡ key.key_hash
    → IsToldOf p key (created_resource key text)
unfolding created_resource field as_object object_field
created_resource-IsToldOf p key text h = record {
  text = text;
  secret = field-api_key key.expires_at text;
  hashed = h;
  hash = refl;
  identifier = refl;
  agent = refl;
  target = refl;
  scopes = refl;
  instrument = refl;
  tenant = refl;
  expiry = field-expires_at key.expires_at text;
  unbound = refl;
}

created_resources-AllToldOf :
    (p : Platform) (now : ℕ) (tenant actor : String) (actions : List CreateAction)
    → AllToldOf p
        (map (new_key p now tenant actor) actions)
        (created_resources p now tenant actor actions)
unfolding created_resources
created_resources-AllToldOf p now tenant actor [] = tt
created_resources-AllToldOf p now tenant actor (action ∷ actions) = (
  created_resource-IsToldOf p (new_key p now tenant actor action) (api_key_text action)
      (unfold new_key in refl),
  created_resources-AllToldOf p now tenant actor actions,
)

-- A call whose actions all name an email and a scope stores one key for each, behind the keys of
-- the tenant, and returns one resource for each, in the same order. The resource names what is stored
-- under its key (the identifier, the hash, the hash of the email, the target, the scopes, the
-- instrument, the tenant and the expiry), says that the key is not bound yet, and has the text of the key, whose
-- digest is the hash that is stored.
pub create_api_keys_complete :
    (p : Platform) (now : ℕ) (tenant actor : String) (actions : List CreateAction) (s : AuthState)
    → AllComplete actions
    → let key = tenant_key tenant in
      let keys = map (new_key p now key actor) actions in
      let (after, reply) = create_api_keys p now tenant actor actions s in
      (list_at key after.api_keys_by_tenant ≡ list_at key s.api_keys_by_tenant ++ keys)
      × (resources : List Json) × (reply ≡ ok resources)
      × AllToldOf p keys resources
unfolding create_api_keys
create_api_keys_complete p now tenant actor actions s h =
    let key = tenant_key tenant in
    let e = create_keys_complete p now key actor actions h in
    rw e (
      unfold keep_created in list_at-put key key _ s.api_keys_by_tenant ∙ rw (eq_refl key) refl,
      created_resources p now key actor actions,
      refl,
      created_resources-AllToldOf p now key actor actions,
    )
