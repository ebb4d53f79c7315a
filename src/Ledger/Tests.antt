-- ===== src/Ledger/Tests.antt =====
-- A ledger in memory, and a credential of an organization.
use dataspace_ica_ts.Common.{
  String, ◌≡◌, ◌≢◌, refl, sym, true, false, inl, inr, Option-cases, Option, none, some, List, [],
  ◌∷◌, ◌==◌, ok, throw, ok_inj, ne→==_false,
}
use dataspace_ica_ts.Text.{trim, to_lower, split, join}
use dataspace_ica_ts.Dict.{Dict, get, put}
use dataspace_ica_ts.Dict.Laws.{get-put, get-put_self}
use dataspace_ica_ts.Json.{
  Json, Entries, null, str, array, object, obj, object_field, as_items, of_entries, field,
  as_object, as_string,
}
use dataspace_ica_ts.Config.Network.{test}
use dataspace_ica_ts.Ledger.{AssetStatus, AssetMetadata, CredentialLedgerAsset, Platform}
use dataspace_ica_ts.Ledger.Config.{
  LedgerEnv, CredentialLedgerConfig, network_mode_of, load_credential_ledger_config,
}
use dataspace_ica_ts.Ledger.Projection.{
  build_credential_ledger_projection, projection_of, vc_id, subject_id_of,
}
use dataspace_ica_ts.Ledger.Service.{
  Action, Adapter, StatusInput, Attachment, written, created, updated, skipped,
  record_issued_credential, revoke_credential, get_credential, record_issued_bundle, record_entry,
  credential_of, jwt_of, is_revoked,
}
use dataspace_ica_ts.Ledger.Laws.Contract.{IsLedger}
use dataspace_ica_ts.Ledger.Laws.Keeps.{Keeps}
use dataspace_ica_ts.Ledger.Laws.Anchored.{has_content}
use dataspace_ica_ts.Ledger.Laws.History.{
  issue, revoke, perform_all, perform_all-Keeps, perform_all-test,
}
use dataspace_ica_ts.Ledger.Laws.Again.{
  record_issued_credential-again, record_issued_credential-conflict, get_credential-revoke,
}
use dataspace_ica_ts.Ledger.Laws.Bundle.{AllRegistered}
use dataspace_ica_ts.Ledger.Laws.Fresh.{IsFresh, record_issued_bundle-IsFresh}

abbrev Memory : Type 0
Memory = Dict CredentialLedgerAsset

abbrev updated_asset :
    AssetStatus → StatusInput → AssetMetadata → CredentialLedgerAsset → CredentialLedgerAsset
updated_asset status input metadata asset = record asset {
  status = status;
  updated_at = input.timestamp;
  metadata = metadata;
  updated_by = input.actor;
  reason = input.reason;
}

memory_update :
    String
    → AssetStatus
    → StatusInput
    → AssetMetadata
    → Action Memory (CredentialLedgerAsset × Option String)
memory_update id status input metadata l = elim (get id l) [
  | none ↦ (throw "does not exist", l)
  | some asset ↦
      let after = updated_asset status input metadata asset in
      (ok (after, some "tx"), put id after l)
]

abbrev memory : Adapter Memory
memory = record {
  read = λ id l. (ok (get id l), l);
  create = λ asset l. (ok (asset, some "tx"), put asset.id asset l);
  update_status = memory_update;
}

get-put_other :
    (k j : String) (v : CredentialLedgerAsset) (l : Memory) → j ≢ k → get j (put k v l) ≡ get j l
get-put_other k j v l ne = rw (get-put k j v l, ne→==_false k j (λ e. ne (sym e))) refl

memory-IsLedger : IsLedger memory get
unfolding memory_update
memory-IsLedger = record {
  read_stored = λ id l o e. sym (ok_inj _ _ e);
  read_keeps = λ id j l. refl;
  create_stored = λ asset l r e. get-put_self asset.id asset l;
  create_other = λ asset j l ne. get-put_other asset.id j asset l ne;
  update_stored = λ id status input metadata l r asset there e.
      let after = updated_asset status input metadata asset in
      (
        after,
        rw (memory_update, there) (get-put_self id after l),
        record { set = refl; kept = refl },
      );
  update_effect = λ id status input metadata l asset there.
      let after = updated_asset status input metadata asset in
      inr (
        after,
        rw (memory_update, there) (get-put_self id after l),
        record { set = refl; kept = refl },
      );
  update_other = λ id j status input metadata l ne. elim (Option-cases (get id l)) [
    | inl absent ↦ rw (memory_update, absent) refl
    | inr (asset, there) ↦ rw (memory_update, there) (get-put_other id j _ l ne)
  ];
}

abbrev payload : Entries
payload = of_entries (("jti", str "urn:vc:1") ∷ ("sub", str "did:web:org.example") ∷ [])

abbrev platform : Platform
platform = record {
  digest = λ s. s;
  stringify = λ v. "content";
  parse_base64url = λ s. ok (obj payload);
}

abbrev vc : Entries
vc = of_entries (
    ("id", str "urn:vc:1")
    ∷ ("type", array (str "VerifiableCredential" ∷ []))
    ∷ ("credentialSubject", object (("id", str "did:web:org.example") ∷ []))
    ∷ [])

abbrev jwt : String
jwt = "e30.e30."

abbrev asset : CredentialLedgerAsset
asset = projection_of platform vc jwt payload

built : build_credential_ledger_projection platform vc jwt ≡ ok asset
unfolding build_credential_ledger_projection split trim field as_object object_field as_string vc_id
    subject_id_of
built = refl

abbrev config : CredentialLedgerConfig
config = record {
  enabled = true;
  required = true;
  network_mode = "local-network";
  channel_name = "identity-local";
  chaincode_name = "credential-sc";
  msp_id = "Org1MSP";
}

abbrev input : StatusInput
input = record { timestamp = "2026-01-01T00:00:00.000Z"; actor = none; reason = some "left" }

recorded :
    (record_issued_credential platform config memory vc jwt []).0
    ≡ ok (written created "urn:vc:1" (some "tx"))
unfolding record_issued_credential build_credential_ledger_projection projection_of get put split
    trim field as_object object_field as_string vc_id subject_id_of
recorded = refl

record_issued_credential-again_example :
    (record_issued_credential platform config memory vc jwt (
      perform_all platform config memory
        (revoke "urn:vc:1" input ∷ [])
        (record_issued_credential platform config memory vc jwt []).1)).0
    ≡ ok (written skipped asset.id none)
record_issued_credential-again_example =
    record_issued_credential-again platform config memory get memory-IsLedger vc jwt []
      (written created "urn:vc:1" (some "tx")) asset (revoke "urn:vc:1" input ∷ [])
      (get asset.id (
        perform_all platform config memory (revoke "urn:vc:1" input ∷ [])
          (record_issued_credential platform config memory vc jwt []).1))
      built recorded refl refl

abbrev other_asset : CredentialLedgerAsset
other_asset = record asset { metadata = record asset.metadata { logical_content_hash = "other" } }

abbrev other_state : Memory
other_state = ("urn:vc:1", other_asset) ∷ []

there : (memory.read asset.id other_state).0 ≡ ok (some other_asset)
unfolding get projection_of vc_id as_string field trim
there = refl

differs : has_content other_asset asset ≡ false
unfolding projection_of
differs = refl

record_issued_credential-conflict_example :
    ((record_issued_credential platform config memory vc jwt other_state).0
      ≡ throw (
          join "" (
            "Credential " ∷ asset.id ∷ " already exists with a different logical content hash."
            ∷ [])))
    × ((j : String)
        → get j (record_issued_credential platform config memory vc jwt other_state).1
          ≡ get j other_state)
record_issued_credential-conflict_example =
    record_issued_credential-conflict platform config memory get memory-IsLedger vc jwt other_state
      asset other_asset built refl there differs

revoked_call :
    (revoke_credential platform config memory "urn:vc:1" input other_state).0
    ≡ ok (written updated "urn:vc:1" (some "tx"))
unfolding revoke_credential memory_update get put projection_of
revoked_call = refl

get_credential-revoke_example :
    (b : CredentialLedgerAsset) × ((get_credential platform config memory "urn:vc:1" (
        perform_all platform config memory
          (issue vc jwt ∷ [])
          (revoke_credential platform config memory "urn:vc:1" input other_state).1)).0
      ≡ ok (some b))
    × (is_revoked b.status ≡ true)
get_credential-revoke_example =
    get_credential-revoke platform config memory get memory-IsLedger "urn:vc:1" input other_state
      (written updated "urn:vc:1" (some "tx")) (issue vc jwt ∷ [])
      (get "urn:vc:1" (
        perform_all platform config memory (issue vc jwt ∷ [])
          (revoke_credential platform config memory "urn:vc:1" input other_state).1))
      revoked_call refl refl

perform_all-Keeps_example : Keeps (get "urn:vc:1" other_state) (
    get "urn:vc:1" (
      perform_all platform config memory (issue vc jwt ∷ revoke "urn:vc:1" input ∷ []) other_state))
perform_all-Keeps_example =
    perform_all-Keeps platform config memory get memory-IsLedger
      (issue vc jwt ∷ revoke "urn:vc:1" input ∷ []) "urn:vc:1" other_state

abbrev env : LedgerEnv
env = record {
  network_mode = some "network";
  ledger_enabled = some "true";
  ledger_required = some "true";
  ledger_channel = none;
  ledger_chaincode = none;
  fabric_msp_id = none;
}

test_mode : (network_mode_of env (some test) == "test") ≡ true
unfolding network_mode_of to_lower trim
test_mode = refl

perform_all-test_example :
    perform_all platform
      (load_credential_ledger_config env (some test))
      memory
      (issue vc jwt ∷ revoke "urn:vc:1" input ∷ [])
      other_state
    ≡ other_state
perform_all-test_example =
    perform_all-test platform memory env (some test) test_mode
      (issue vc jwt ∷ revoke "urn:vc:1" input ∷ []) other_state

abbrev bundle : List (Option Json)
bundle = some null ∷ some (obj vc) ∷ []

abbrev attachments : List Attachment
attachments =
    record {
      format = some "vc+jwt";
      json = some (object (("credentialId", str "urn:vc:1") ∷ ("jwt", str jwt) ∷ []));
    }
    ∷ []

bundle_recorded :
    (record_issued_bundle platform config memory bundle attachments []).0
    ≡ ok (written created "urn:vc:1" (some "tx") ∷ [])
unfolding record_issued_bundle record_entry credential_of jwt_of record_issued_credential
    build_credential_ledger_projection projection_of get put split trim field as_items as_object
    object_field as_string vc_id subject_id_of
bundle_recorded = refl

record_issued_bundle-IsFresh_example :
    AllRegistered platform config memory get memory-IsLedger attachments bundle
      (record_issued_bundle platform config memory bundle attachments []).1
    × IsFresh platform config memory get memory-IsLedger attachments []
        (record_issued_bundle platform config memory bundle attachments []).1
record_issued_bundle-IsFresh_example =
    record_issued_bundle-IsFresh platform config memory get memory-IsLedger refl refl bundle
      attachments [] (written created "urn:vc:1" (some "tx") ∷ []) bundle_recorded
