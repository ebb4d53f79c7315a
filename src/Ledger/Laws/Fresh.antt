-- ===== src/Ledger/Laws/Fresh.antt =====
-- What a bundle writes under ids that the ledger did not have: which JWT the asset was made with.
use dataspace_ica_ts.Common.{
  String, ◌≡◌, ◌⊎◌, refl, sym, ap, ◌∙◌, true, inl, inr, Bool-cases, Option-cases, eq_iff, eq_refl,
  some_inj, Bool, ◌&&◌, ◌==◌, any, ok_inj, bind-ok, Option, none, some, List, [], ◌∷◌, arith,
  is_empty, ok, Result-cases,
}
use mathlib.Core.Path.{subst}
use dataspace_ica_ts.Json.{Json, Entries, field, as_string}
use dataspace_ica_ts.Ledger.{CredentialLedgerAsset, Representation, Platform}
use dataspace_ica_ts.Ledger.Config.{CredentialLedgerConfig}
use dataspace_ica_ts.Ledger.Projection.{
  decode_jwt_payload, check_identity, projection_of, vc_id, subject_id_of,
  build_credential_ledger_projection,
}
use dataspace_ica_ts.Ledger.Service.{
  Adapter, Attachment, CredentialLedgerWriteResult, ◌>>=◌, catch_unless, anchor, written, created,
  disabled, record_issued_credential, credential_of, jwt_of, record_entry, record_issued_bundle,
}
use dataspace_ica_ts.Ledger.Laws.Contract.{IsLedger}
use dataspace_ica_ts.Ledger.Laws.Keeps.{catch_unless-state, >>=-give_state, anchor_absent}
use dataspace_ica_ts.Ledger.Laws.Anchored.{build-content, record_enabled}
use dataspace_ica_ts.Ledger.Laws.Bundle.{
  AllRegistered, bundle_pass, bundle_stop, bundle_step, record_issued_bundle-IsRegistered,
}

-- The digest of the JWT is among the representations of the asset.
abbrev pub has_jwt : Platform → String → CredentialLedgerAsset → Bool
has_jwt p jwt asset =
    any (λ (r : Representation). r.format == "vc+jwt" && r.hash_value == p.digest jwt)
      asset.metadata.representations

build-has_jwt :
    (p : Platform) (vc : Entries) (jwt : String) (a : CredentialLedgerAsset)
    → build_credential_ledger_projection p vc jwt ≡ ok a
    → has_jwt p jwt a ≡ true
unfolding build_credential_ledger_projection
build-has_jwt p vc jwt a built =
    let (payload, _, checked) = bind-ok (decode_jwt_payload p jwt) _ a built in
    let (_, _, made) =
      bind-ok
        (check_identity (vc_id vc) (subject_id_of vc) (as_string (field "jti" payload))
          (as_string (field "sub" payload)) payload)
        _ a checked in
    let same = ok_inj (projection_of p vc jwt payload) a made in
    rw (← same) (unfold projection_of in rw (eq_refl (p.digest jwt)) refl)

module _ {L : Type 0} (p : Platform) (config : CredentialLedgerConfig) (adapter : Adapter L)
    (stored : String → L → Option CredentialLedgerAsset) (ledger : IsLedger adapter stored) where
  -- At most the asset is new.
  abbrev IsWrite : CredentialLedgerAsset → L → L → Type 0
  IsWrite a l l' = (j : String) → (stored j l' ≡ stored j l) ⊎ ((j ≡ a.id) × (stored j l' ≡ some a))

  create-IsWrite :
      (a : CredentialLedgerAsset) (l : L) (r : CredentialLedgerAsset × Option String)
      → (adapter.create a l).0 ≡ ok r
      → IsWrite a l (adapter.create a l).1
  create-IsWrite a l r done j = elim (Bool-cases (j == a.id)) [
    | inl same ↦ let e = (eq_iff j a.id).0 same in inr (e, rw e (ledger.create_stored a l r done))
    | inr other ↦ inl (ledger.create_other a j l (λ e. ground (arith, eq_iff j a.id)))
  ]

  anchor-IsWrite :
      (a : CredentialLedgerAsset) (l : L) (r : CredentialLedgerWriteResult)
      → (anchor p config adapter a l).0 ≡ ok r
      → IsWrite a l (anchor p config adapter a l).1
  unfolding anchor
  anchor-IsWrite a l r h = elim (Result-cases (adapter.read a.id l).0) [
    | inr (message, e) ↦ ground (arith, (rw (anchor, ◌>>=◌, e) at h))
    | inl (some found, e) ↦ rw (anchor, ◌>>=◌, e) (λ j. inl (ledger.read_keeps a.id j l))
    | inl (none, e) ↦
        let l' = (adapter.read a.id l).1 in
        elim (Result-cases (adapter.create a l').0) [
          | inl (made, done) ↦ rw (anchor_absent p config adapter stored ledger a l e) (
              rw (>>=-give_state (adapter.create a) (λ x. ok (written created a.id x.1)) l') (λ j.
                elim (create-IsWrite a l' made done j) [
                  | inl same ↦ inl (same ∙ ledger.read_keeps a.id j l)
                  | inr new ↦ inr new
                ]))
          | inr (message, failed) ↦ ground (arith, (rw (anchor, ◌>>=◌, e, failed) at h))
        ]
  ]

  -- Since `l`, only assets with the JWT that the attachments pair with their id are new.
  abbrev pub IsFresh : List Attachment → L → L → Type 0
  IsFresh attachments l l' =
      (id : String) (b : CredentialLedgerAsset)
      → stored id l ≡ none
      → stored id l' ≡ some b
      → has_jwt p (jwt_of attachments id) b ≡ true

  module _ (on : config.enabled ≡ true) (required : config.required ≡ true) where
    record-IsWrite :
        (vc : Entries) (jwt : String) (l : L) (r : CredentialLedgerWriteResult)
        → (record_issued_credential p config adapter vc jwt l).0 ≡ ok r
        → (a : CredentialLedgerAsset) × (build_credential_ledger_projection p vc jwt ≡ ok a)
          × IsWrite a l (record_issued_credential p config adapter vc jwt l).1
    unfolding record_issued_credential
    record-IsWrite vc jwt l r h =
        elim (Result-cases (build_credential_ledger_projection p vc jwt)) [
          | inr (message, e) ↦ ground (arith, (rw (record_issued_credential, e) at h))
          | inl (a, built) ↦
              let same = record_enabled p config adapter stored ledger vc jwt l a built on in
              elim (Result-cases (anchor p config adapter a l).0) [
                | inr (message, failed) ↦
                    let h' = rw same at h in
                    ground (arith, (rw (catch_unless, failed, required) at h'))
                | inl (result, done) ↦ (
                  a,
                  built,
                  rw same (
                      rw
                        (catch_unless-state config.required (written disabled a.id none)
                          (anchor p config adapter a) l)
                        (anchor-IsWrite a l result done)),
                )
              ]
        ]

    entry-IsFresh :
        (attachments : List Attachment) (vc : Entries) (first l : L)
        (r : CredentialLedgerWriteResult)
        → (record_entry p config adapter attachments vc l).0 ≡ ok r
        → IsFresh attachments first l
        → IsFresh attachments first (record_entry p config adapter attachments vc l).1
    unfolding record_entry
    entry-IsFresh attachments vc first l r h fresh =
        let jwt = jwt_of attachments (vc_id vc) in
        elim (Bool-cases (is_empty jwt)) [
          | inl missing ↦ ground (arith, (rw (record_entry, missing) at h))
          | inr there ↦
              let (a, built, write) = record-IsWrite vc jwt l r (rw (record_entry, there) at h) in
              rw (record_entry, there)
                (λ id b absent found. elim (write id) [
                  | inl same ↦ fresh id b absent (sym same ∙ found)
                  | inr (named, new) ↦
                      let this : a ≡ b = some_inj a b (sym new ∙ found) in
                      let own : id ≡ vc_id vc = named ∙ (build-content p vc jwt a built).0 in
                      rw (own, ← this) (build-has_jwt p vc jwt a built)
                ])
        ]

    bundle-IsFresh :
        (resources : List (Option Json)) (attachments : List Attachment) (first l : L)
        (results : List CredentialLedgerWriteResult)
        → (record_issued_bundle p config adapter resources attachments l).0 ≡ ok results
        → IsFresh attachments first l
        → IsFresh attachments first
            (record_issued_bundle p config adapter resources attachments l).1
    unfolding record_issued_bundle
    bundle-IsFresh [] attachments first l results h fresh = fresh
    bundle-IsFresh (r ∷ rs) attachments first l results h fresh =
        elim (Option-cases (credential_of r)) [
          | inl other ↦
              let pass = bundle_pass p config adapter stored ledger r rs attachments l other in
              subst (IsFresh attachments first) (sym (ap (λ x. x.1) pass))
                (bundle-IsFresh rs attachments first l results (rw pass at h) fresh)
          | inr (vc, e) ↦
              let l' = (record_entry p config adapter attachments vc l).1 in
              let rest = record_issued_bundle p config adapter rs attachments in
              elim (Result-cases (record_entry p config adapter attachments vc l).0) [
                | inr (message, failed) ↦
                    let stop =
                      bundle_stop p config adapter stored ledger r rs attachments vc l message e
                        failed in
                    ground (arith, (rw stop at h))
                | inl (x, done) ↦
                    let step =
                      bundle_step p config adapter stored ledger r rs attachments vc l x e done in
                    elim (Result-cases (rest l').0) [
                      | inr (message, failed) ↦
                          let h' = rw step at h in ground (arith, (rw (◌>>=◌, failed) at h'))
                      | inl (xs, more) ↦
                          let state =
                            ap (λ y. y.1) step ∙ >>=-give_state rest (λ ys. ok (x ∷ ys)) l' in
                          subst (IsFresh attachments first) (sym state) (
                            bundle-IsFresh rs attachments first l' xs more
                              (entry-IsFresh attachments vc first l x done fresh))
                    ]
              ]
        ]

-- Where the ledger is enabled and required, and behaves as `IsLedger` says, a bundle that is registered
-- without an error is registered whole. For every credential among its entries, the JWT that the
-- attachments pair with it has passed the checks of its id and subject, and when the call returns
-- there is an asset under the id of the credential whose logical content hash is that of the document
-- without its proof. An asset under an id that had none before the call has the digest of the JWT that
-- the attachments pair with the id; one that was there before may have been made with another JWT.
pub record_issued_bundle-IsFresh :
    {L : Type 0} (p : Platform) (config : CredentialLedgerConfig) (adapter : Adapter L)
    (stored : String → L → Option CredentialLedgerAsset) (ledger : IsLedger adapter stored)
    → config.enabled ≡ true
    → config.required ≡ true
    → (resources : List (Option Json)) (attachments : List Attachment) (l : L)
      (results : List CredentialLedgerWriteResult)
    → (record_issued_bundle p config adapter resources attachments l).0 ≡ ok results
    → AllRegistered p config adapter stored ledger attachments resources
        (record_issued_bundle p config adapter resources attachments l).1
      × IsFresh p config adapter stored ledger attachments l
          (record_issued_bundle p config adapter resources attachments l).1
record_issued_bundle-IsFresh p config adapter stored ledger on required resources attachments l
      results h =
    (
      record_issued_bundle-IsRegistered p config adapter stored ledger on required resources
          attachments l results h,
      bundle-IsFresh p config adapter stored ledger on required resources attachments l l results h
          (λ id b absent found. absurd (ground arith)),
    )
