-- ===== src/Ledger/Service.antt =====
-- `CredentialLedgerService` over an adapter. A call takes the state of the ledger and returns it with
-- its result; the errors that a `catch` swallows are logged by the code.
use dataspace_ica_ts.Common.{
  String, Bool, true, false, not, ◌&&◌, Option, none, some, List, [], ◌∷◌, ◌==◌, is_empty, any,
  first, if◌then◌else◌, Result, ok, throw,
}
use dataspace_ica_ts.Text.{join}
use dataspace_ica_ts.Json.{Json, Entries, str, field, as_object, object_field, as_string, as_items}
use dataspace_ica_ts.Ledger.{AssetStatus, revoked, AssetMetadata, CredentialLedgerAsset, Platform}
use dataspace_ica_ts.Ledger.Config.{CredentialLedgerConfig}
use dataspace_ica_ts.Ledger.Projection.{vc_id, build_credential_ledger_projection}

pub data WriteAction : Type 0 where
  disabled created skipped updated : WriteAction

pub record CredentialLedgerWriteResult : Type 0 where
  pub action : WriteAction
  pub credential_id : String
  pub transaction_id : Option String

pub record StatusInput : Type 0 where
  pub timestamp : String
  pub actor : Option String
  pub reason : Option String

-- A call on a ledger in the state `L`.
abbrev pub Action : Type 0 → Type 0 → Type 0
Action L A = L → Result A × L

-- `CredentialLedgerAdapter`: a write returns the asset and the transaction.
pub record Adapter (L : Type 0) : Type 0 where
  pub read : String → Action L (Option CredentialLedgerAsset)
  pub create : CredentialLedgerAsset → Action L (CredentialLedgerAsset × Option String)
  pub update_status :
      String
      → AssetStatus
      → StatusInput
      → AssetMetadata
      → Action L (CredentialLedgerAsset × Option String)

infixl 5 ◌>>=◌
abbrev pub ◌>>=◌ : {L A B : Type 0} → Action L A → (A → Action L B) → Action L B
◌>>=◌ m f l = let (r, l') = m l in elim r [ ok a ↦ f a l' | throw message ↦ (throw message, l') ]

abbrev pub give : {L A : Type 0} → Result A → Action L A
give r l = (r, l)

-- `catch (error) { if (required) throw error; return fallback; }`
abbrev pub catch_unless : {L A : Type 0} → Bool → A → Action L A → Action L A
catch_unless required fallback m l =
    let (r, l') = m l in
    elim r [
      | ok a ↦ (ok a, l')
      | throw message ↦ (if required then throw message else ok fallback, l')
    ]

abbrev pub written : WriteAction → String → Option String → CredentialLedgerWriteResult
written action credential_id transaction_id = record {
  action = action;
  credential_id = credential_id;
  transaction_id = transaction_id;
}

abbrev pub is_revoked : AssetStatus → Bool
is_revoked revoked = true
is_revoked _ = false

module _ {L : Type 0} (p : Platform) (config : CredentialLedgerConfig) (adapter : Adapter L) where
  -- The call of `create`, where no asset has the id.
  unfoldable pub anchor : CredentialLedgerAsset → Action L CredentialLedgerWriteResult
  anchor projection = do
    existing ← adapter.read projection.id
    elim existing [
      | some asset ↦ give (
          if not (asset.metadata.logical_content_hash == projection.metadata.logical_content_hash)
          then throw (
              join "" (
                "Credential " ∷ projection.id
                ∷ " already exists with a different logical content hash." ∷ []))
          else ok (written skipped projection.id none))
      | none ↦
          adapter.create projection >>= λ result. give (ok (written created projection.id result.1))
    ]

  unfoldable pub record_issued_credential : Entries → String → Action L CredentialLedgerWriteResult
  unfolding anchor
  record_issued_credential vc jwt = do
    projection ← give (build_credential_ledger_projection p vc jwt)
    if not config.enabled
        then give (ok (written disabled projection.id none))
        else catch_unless config.required (written disabled projection.id none) (anchor projection)

  unfoldable pub get_credential : String → Action L (Option CredentialLedgerAsset)
  get_credential id =
      if not config.enabled
      then give (ok none)
      else catch_unless config.required none (adapter.read id)

  -- The call of `updateStatus`, where the asset is there and not revoked.
  unfoldable pub revoke_asset : String → StatusInput → Action L CredentialLedgerWriteResult
  revoke_asset id input = do
    existing ← adapter.read id
    elim existing [
      | none ↦ give (throw (join "" ("Credential " ∷ id ∷ " is not registered in Fabric." ∷ [])))
      | some asset ↦
          if is_revoked asset.status
          then give (ok (written skipped id none))
          else adapter.update_status id revoked input asset.metadata >>= λ result.
              give (ok (written updated id result.1))
    ]

  unfoldable pub revoke_credential : String → StatusInput → Action L CredentialLedgerWriteResult
  unfolding revoke_asset
  revoke_credential id input =
      if not config.enabled
      then give (ok (written disabled id none))
      else catch_unless config.required (written disabled id none) (revoke_asset id input)

-- `DidcommAttachment`: the format, and the JSON document of its data.
pub record Attachment : Type 0 where
  pub format : Option String
  pub json : Option Json

abbrev is_text : String → Json → Bool
is_text s (str t) = t == s
is_text s _ = false

-- The credential of an entry of a bundle; another entry is passed over.
unfoldable pub credential_of : Option Json → Option Entries
credential_of resource = elim (as_object resource) [
  | none ↦ none
  | some vc ↦
      if any (is_text "VerifiableCredential") (as_items (field "type" vc)) then some vc else none
]

abbrev has_format : String → Option String → Bool
has_format s none = false
has_format s (some t) = t == s

-- The JWT of the first attachment in the format for the credential.
unfoldable pub jwt_of : List Attachment → String → String
jwt_of attachments credential_id =
    let matching =
      first
        (λ a.
          has_format "vc+jwt" a.format
          && as_string (object_field "credentialId" (as_object a.json)) == credential_id)
        attachments in
    elim matching [ none ↦ "" | some a ↦ as_string (object_field "jwt" (as_object a.json)) ]

module _ {L : Type 0} (p : Platform) (config : CredentialLedgerConfig) (adapter : Adapter L) where
  -- One entry: none where it is passed over.
  unfoldable pub record_entry : List Attachment → Entries → Action L CredentialLedgerWriteResult
  unfolding jwt_of record_issued_credential
  record_entry attachments vc =
      let jwt = jwt_of attachments (vc_id vc) in
      if is_empty jwt
      then give
          (throw (join "" ("Missing VC-JWT representation for credential " ∷ vc_id vc ∷ "." ∷ [])))
      else record_issued_credential p config adapter vc jwt

  unfoldable pub record_issued_bundle :
      List (Option Json) → List Attachment → Action L (List CredentialLedgerWriteResult)
  record_issued_bundle [] attachments = give (ok [])
  record_issued_bundle (resource ∷ resources) attachments = elim (credential_of resource) [
    | none ↦ record_issued_bundle resources attachments
    | some vc ↦ do
      result ← record_entry attachments vc
      results ← record_issued_bundle resources attachments
      give (ok (result ∷ results))
  ]
