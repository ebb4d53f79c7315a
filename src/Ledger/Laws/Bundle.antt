-- ===== src/Ledger/Laws/Bundle.antt =====
-- The registration of a whole bundle.
use dataspace_ica_ts.Common.{
  String, ◌≡◌, refl, sym, ap, ◌∙◌, true, inl, inr, Bool-cases, Option-cases, eq_iff, Option, none,
  some, List, [], ◌∷◌, arith, is_empty, ok, throw, Result-cases,
}
use mathlib.Core.Path.{subst}
use dataspace_ica_ts.Text.Slashes.{All}
use dataspace_ica_ts.Json.{Json, Entries, obj}
use dataspace_ica_ts.Ledger.{CredentialLedgerAsset, Platform}
use dataspace_ica_ts.Ledger.Config.{CredentialLedgerConfig}
use dataspace_ica_ts.Ledger.Canonical.{hash_json}
use dataspace_ica_ts.Ledger.Projection.{
  build_credential_ledger_projection, logical_credential_content, vc_id,
}
use dataspace_ica_ts.Ledger.Service.{
  Adapter, Attachment, CredentialLedgerWriteResult, ◌>>=◌, give, catch_unless, anchor,
  record_issued_credential, credential_of, jwt_of, record_entry, record_issued_bundle, written,
  disabled,
}
use dataspace_ica_ts.Ledger.Laws.Contract.{IsLedger}
use dataspace_ica_ts.Ledger.Laws.Keeps.{catch_unless-state, >>=-give_state, Keeps, bundle-Keeps}
use dataspace_ica_ts.Ledger.Laws.Anchored.{
  build-content, IsAnchored, anchor-IsAnchored, record_enabled,
}

module _ {L : Type 0} (p : Platform) (config : CredentialLedgerConfig) (adapter : Adapter L)
    (stored : String → L → Option CredentialLedgerAsset) (ledger : IsLedger adapter stored) where
  -- The credential of an entry, if it has one, is registered: the JWT that the attachments pair with it
  -- is one for its id and its subject, and what is stored under its id has its logical content.
  abbrev pub IsRegistered : List Attachment → L → Option Entries → Type 0
  IsRegistered attachments l none = Unit
  IsRegistered attachments l (some vc) =
      (a : CredentialLedgerAsset) × (build_credential_ledger_projection p vc
          (jwt_of attachments (vc_id vc))
        ≡ ok a)
      × (b : CredentialLedgerAsset) × (stored (vc_id vc) l ≡ some b)
      × (b.metadata.logical_content_hash ≡ hash_json p (obj (logical_credential_content vc)))

  abbrev pub AllRegistered : List Attachment → List (Option Json) → L → Type 0
  AllRegistered attachments resources l =
      All (λ resource. IsRegistered attachments l (credential_of resource)) resources

  module _ (on : config.enabled ≡ true) (required : config.required ≡ true) where
    record_required :
        (vc : Entries) (jwt : String) (l : L) (r : CredentialLedgerWriteResult)
        → (record_issued_credential p config adapter vc jwt l).0 ≡ ok r
        → (a : CredentialLedgerAsset) × (build_credential_ledger_projection p vc jwt ≡ ok a)
          × IsAnchored p config adapter stored ledger a
              (record_issued_credential p config adapter vc jwt l).1
    unfolding record_issued_credential
    record_required vc jwt l r h =
        elim (Result-cases (build_credential_ledger_projection p vc jwt)) [
          | inr (message, e) ↦ ground (arith, (rw (record_issued_credential, e) at h))
          | inl (a, built) ↦
              let same = record_enabled p config adapter stored ledger vc jwt l a built on in
              elim (Result-cases (anchor p config adapter a l).0) [
                | inr (message, failed) ↦
                    let h' = rw same at h in
                    ground (arith, (rw (catch_unless, failed, required) at h'))
                | inl (result, done) ↦ (
                  a,
                  built,
                  rw same (
                      rw
                        (catch_unless-state config.required (written disabled a.id none)
                          (anchor p config adapter a) l)
                        (anchor-IsAnchored p config adapter stored ledger a l result done)),
                )
              ]
        ]

    entry-IsRegistered :
        (attachments : List Attachment) (vc : Entries) (l : L) (r : CredentialLedgerWriteResult)
        → (record_entry p config adapter attachments vc l).0 ≡ ok r
        → IsRegistered attachments (record_entry p config adapter attachments vc l).1 (some vc)
    unfolding record_entry
    entry-IsRegistered attachments vc l r h =
        elim (Bool-cases (is_empty (jwt_of attachments (vc_id vc)))) [
          | inl missing ↦ ground (arith, (rw (record_entry, missing) at h))
          | inr there ↦
              let (a, built, (b, e, same)) =
                record_required vc (jwt_of attachments (vc_id vc)) l r
                  (rw (record_entry, there) at h) in
              let (named, content) = build-content p vc (jwt_of attachments (vc_id vc)) a built in
              rw (record_entry, there)
                (
                  a,
                  built,
                  b,
                  rw named at e,
                  (eq_iff b.metadata.logical_content_hash a.metadata.logical_content_hash).0 same
                      ∙ content,
                )
        ]

  Keeps-IsRegistered :
      (attachments : List Attachment) (l l' : L) (vc : Entries)
      → ((id : String) → Keeps (stored id l) (stored id l'))
      → IsRegistered attachments l (some vc)
      → IsRegistered attachments l' (some vc)
  Keeps-IsRegistered attachments l l' vc keeps (a, built, b, e, same) =
      let (c, e', kept, _) = rw e at (keeps (vc_id vc)) in (a, built, c, e', rw kept same)

  pub bundle_pass :
      (r : Option Json) (rs : List (Option Json)) (attachments : List Attachment) (l : L)
      → credential_of r ≡ none
      → record_issued_bundle p config adapter (r ∷ rs) attachments l
        ≡ record_issued_bundle p config adapter rs attachments l
  unfolding record_issued_bundle
  bundle_pass r rs attachments l other = rw (record_issued_bundle, other) refl

  pub bundle_stop :
      (r : Option Json) (rs : List (Option Json)) (attachments : List Attachment) (vc : Entries)
      (l : L) (message : String)
      → credential_of r ≡ some vc
      → (record_entry p config adapter attachments vc l).0 ≡ throw message
      → (record_issued_bundle p config adapter (r ∷ rs) attachments l).0 ≡ throw message
  unfolding record_issued_bundle
  bundle_stop r rs attachments vc l message e failed =
      rw (record_issued_bundle, e) (rw (◌>>=◌, failed) refl)

  pub bundle_step :
      (r : Option Json) (rs : List (Option Json)) (attachments : List Attachment) (vc : Entries)
      (l : L) (x : CredentialLedgerWriteResult)
      → credential_of r ≡ some vc
      → (record_entry p config adapter attachments vc l).0 ≡ ok x
      → record_issued_bundle p config adapter (r ∷ rs) attachments l
        ≡ (record_issued_bundle p config adapter rs attachments >>= λ xs. give (ok (x ∷ xs)))
            (record_entry p config adapter attachments vc l).1
  unfolding record_issued_bundle
  bundle_step r rs attachments vc l x e done = rw (record_issued_bundle, e) (rw (◌>>=◌, done) refl)

-- Where the ledger is enabled and required, and behaves as `IsLedger` says, a bundle that is registered
-- without an error is registered whole. For every credential among its entries, the JWT that the
-- attachments pair with it has passed the checks of its id and subject, and when the call returns
-- there is an asset under the id of the credential whose logical content hash is that of the document
-- without its proof. The asset may be an older one, made with another JWT.
pub record_issued_bundle-IsRegistered :
    {L : Type 0} (p : Platform) (config : CredentialLedgerConfig) (adapter : Adapter L)
    (stored : String → L → Option CredentialLedgerAsset) (ledger : IsLedger adapter stored)
    → config.enabled ≡ true
    → config.required ≡ true
    → (resources : List (Option Json)) (attachments : List Attachment) (l : L)
      (results : List CredentialLedgerWriteResult)
    → (record_issued_bundle p config adapter resources attachments l).0 ≡ ok results
    → AllRegistered p config adapter stored ledger attachments resources
        (record_issued_bundle p config adapter resources attachments l).1
record_issued_bundle-IsRegistered p config adapter stored ledger on required [] attachments l
      results h =
    tt
record_issued_bundle-IsRegistered p config adapter stored ledger on required (r ∷ rs) attachments l
      results h =
    elim (Option-cases (credential_of r)) [
      | inl other ↦
          let pass = bundle_pass p config adapter stored ledger r rs attachments l other in
          let registered = AllRegistered p config adapter stored ledger attachments (r ∷ rs) in
          subst registered (sym (ap (λ x. x.1) pass)) (
            rw other tt,
            record_issued_bundle-IsRegistered p config adapter stored ledger on required rs
                attachments l results (rw pass at h),
          )
      | inr (vc, e) ↦
          let l' = (record_entry p config adapter attachments vc l).1 in
          elim (Result-cases (record_entry p config adapter attachments vc l).0) [
            | inr (message, failed) ↦
                let stop =
                  bundle_stop p config adapter stored ledger r rs attachments vc l message e
                    failed in
                ground (arith, (rw stop at h))
            | inl (x, done) ↦
                let step =
                  bundle_step p config adapter stored ledger r rs attachments vc l x e done in
                elim (Result-cases (record_issued_bundle p config adapter rs attachments l').0) [
                  | inr (message, failed) ↦
                      let h' = rw step at h in ground (arith, (rw (◌>>=◌, failed) at h'))
                  | inl (xs, more) ↦
                      let registered =
                        AllRegistered p config adapter stored ledger attachments (r ∷ rs) in
                      let state =
                        ap (λ y. y.1) step
                        ∙ >>=-give_state (record_issued_bundle p config adapter rs attachments)
                            (λ ys. ok (x ∷ ys)) l' in
                      let later = (record_issued_bundle p config adapter rs attachments l').1 in
                      let entry =
                        entry-IsRegistered p config adapter stored ledger on required attachments vc
                          l x done in
                      let head =
                        Keeps-IsRegistered p config adapter stored ledger attachments l' later vc
                          (λ id. bundle-Keeps p config adapter stored ledger rs attachments id l')
                          entry in
                      subst registered (sym state) (
                        rw e head,
                        record_issued_bundle-IsRegistered p config adapter stored ledger on required
                            rs attachments l' xs more,
                      )
                ]
          ]
    ]
