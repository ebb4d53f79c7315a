-- ===== src/Ledger/Laws/History.antt =====
-- The calls of the service in any sequence, from any state of the ledger.
use dataspace_ica_ts.Common.{
  String, ◌≡◌, refl, true, false, inl, inr, Bool-cases, Option-cases, Result-cases, ok, is_empty,
  Option, List, [], ◌∷◌, ◌==◌,
}
use dataspace_ica_ts.Json.{Json, Entries}
use dataspace_ica_ts.Config.Network.{NetworkKind}
use dataspace_ica_ts.Ledger.{CredentialLedgerAsset, Platform}
use dataspace_ica_ts.Ledger.Config.{
  LedgerEnv, CredentialLedgerConfig, network_mode_of, load_credential_ledger_config,
}
use dataspace_ica_ts.Ledger.Projection.{vc_id, build_credential_ledger_projection}
use dataspace_ica_ts.Ledger.Service.{
  ◌>>=◌, Adapter, StatusInput, Attachment, record_issued_credential, get_credential,
  revoke_credential, credential_of, jwt_of, record_entry, record_issued_bundle,
}
use dataspace_ica_ts.Ledger.Laws.Contract.{IsLedger}
use dataspace_ica_ts.Ledger.Laws.Keeps.{
  >>=-give_state, Keeps, Keeps-refl, Keeps-trans, record-Keeps, get-Keeps, revoke-Keeps,
  bundle-Keeps,
}

pub data Operation : Type 0 where
  issue : Entries → String → Operation
  issue_bundle : List (Option Json) → List Attachment → Operation
  get : String → Operation
  revoke : String → StatusInput → Operation

module _ {L : Type 0} (p : Platform) (config : CredentialLedgerConfig) (adapter : Adapter L) where
  abbrev pub perform : Operation → L → L
  perform (issue vc jwt) l = (record_issued_credential p config adapter vc jwt l).1
  perform (issue_bundle resources attachments) l =
      (record_issued_bundle p config adapter resources attachments l).1
  perform (get id) l = (get_credential p config adapter id l).1
  perform (revoke id input) l = (revoke_credential p config adapter id input l).1

  abbrev pub perform_all : List Operation → L → L
  perform_all [] l = l
  perform_all (op ∷ ops) l = perform_all ops (perform op l)

  module _ (stored : String → L → Option CredentialLedgerAsset)
      (ledger : IsLedger adapter stored) where
    perform-Keeps :
        (op : Operation) (id : String) (l : L) → Keeps (stored id l) (stored id (perform op l))
    perform-Keeps (issue vc jwt) id l = record-Keeps p config adapter stored ledger vc jwt id l
    perform-Keeps (issue_bundle rs attachments) id l =
        bundle-Keeps p config adapter stored ledger rs attachments id l
    perform-Keeps (get key) id l = get-Keeps p config adapter stored ledger key id l
    perform-Keeps (revoke key input) id l =
        revoke-Keeps p config adapter stored ledger key id input l

-- Over a ledger that keeps its contract, no sequence of calls of the service, whatever fails, removes an
-- asset that is stored, changes its metadata, or takes back its revocation.
pub perform_all-Keeps :
    {L : Type 0} (p : Platform) (config : CredentialLedgerConfig) (adapter : Adapter L)
    (stored : String → L → Option CredentialLedgerAsset)
    → IsLedger adapter stored
    → (ops : List Operation) (id : String) (l : L)
    → Keeps (stored id l) (stored id (perform_all p config adapter ops l))
perform_all-Keeps p config adapter stored ledger [] id l = Keeps-refl (stored id l)
perform_all-Keeps p config adapter stored ledger (op ∷ ops) id l =
    Keeps-trans _ _ _ (perform-Keeps p config adapter stored ledger op id l)
      (perform_all-Keeps p config adapter stored ledger ops id (perform p config adapter op l))

module _ {L : Type 0} (p : Platform) (config : CredentialLedgerConfig) (adapter : Adapter L)
    (off : config.enabled ≡ false) where
  record_disabled :
      (vc : Entries) (jwt : String) (l : L)
      → (record_issued_credential p config adapter vc jwt l).1 ≡ l
  unfolding record_issued_credential
  record_disabled vc jwt l = elim (Result-cases (build_credential_ledger_projection p vc jwt)) [
    | inr (message, e) ↦ rw (record_issued_credential, e) refl
    | inl (a, e) ↦ rw (record_issued_credential, e, off) refl
  ]

  entry_disabled :
      (attachments : List Attachment) (vc : Entries) (l : L)
      → (record_entry p config adapter attachments vc l).1 ≡ l
  unfolding record_entry
  entry_disabled attachments vc l = elim (Bool-cases (is_empty (jwt_of attachments (vc_id vc)))) [
    | inl missing ↦ rw (record_entry, missing) refl
    | inr there ↦ rw (record_entry, there) (record_disabled vc (jwt_of attachments (vc_id vc)) l)
  ]

  bundle_disabled :
      (resources : List (Option Json)) (attachments : List Attachment) (l : L)
      → (record_issued_bundle p config adapter resources attachments l).1 ≡ l
  unfolding record_issued_bundle
  bundle_disabled [] attachments l = refl
  bundle_disabled (r ∷ rs) attachments l = elim (Option-cases (credential_of r)) [
    | inl other ↦ rw (record_issued_bundle, other) (bundle_disabled rs attachments l)
    | inr (vc, e) ↦ elim (Result-cases (record_entry p config adapter attachments vc l).0) [
      | inr (message, failed) ↦
          rw (record_issued_bundle, e) (rw (◌>>=◌, failed) (entry_disabled attachments vc l))
      | inl (result, done) ↦
          rw (record_issued_bundle, e)
            (rw (◌>>=◌, done)
              (rw
                (>>=-give_state (record_issued_bundle p config adapter rs attachments)
                  (λ results. ok (result ∷ results))
                  (record_entry p config adapter attachments vc l).1)
                (rw (entry_disabled attachments vc l) (bundle_disabled rs attachments l))))
    ]
  ]

  pub perform_disabled : (op : Operation) (l : L) → perform p config adapter op l ≡ l
  unfolding get_credential revoke_credential
  perform_disabled (issue vc jwt) l = record_disabled vc jwt l
  perform_disabled (issue_bundle rs attachments) l = bundle_disabled rs attachments l
  perform_disabled (get id) l = rw (get_credential, off) refl
  perform_disabled (revoke id input) l = rw (revoke_credential, off) refl

load_disabled :
    (env : LedgerEnv) (requested : Option NetworkKind)
    → (network_mode_of env requested == "test") ≡ true
    → (load_credential_ledger_config env requested).enabled ≡ false
unfolding load_credential_ledger_config
load_disabled env requested h = rw h refl

-- In a deployment whose network mode is "test", by the request or by the environment, no sequence of
-- calls of the service touches the ledger, however the other variables are set.
pub perform_all-test :
    {L : Type 0} (p : Platform) (adapter : Adapter L) (env : LedgerEnv)
    (requested : Option NetworkKind)
    → (network_mode_of env requested == "test") ≡ true
    → (ops : List Operation) (l : L)
    → perform_all p (load_credential_ledger_config env requested) adapter ops l ≡ l
perform_all-test p adapter env requested h [] l = refl
perform_all-test p adapter env requested h (op ∷ ops) l =
    rw
      (perform_disabled p (load_credential_ledger_config env requested) adapter
        (load_disabled env requested h) op l)
      (perform_all-test p adapter env requested h ops l)
