-- ===== src/Ledger/Laws/Anchored.antt =====
-- What the ledger holds after a credential is recorded.
use dataspace_ica_ts.Common.{
  String, ◌≡◌, ◌⊎◌, refl, sym, Bool, true, false, inl, inr, Bool-cases, Option, none, some, arith,
  ◌==◌, ok, Result-cases, ok_inj, bind-ok, eq_refl,
}
use dataspace_ica_ts.Json.{Entries, obj, field, as_string}
use dataspace_ica_ts.Ledger.{CredentialLedgerAsset, Platform}
use dataspace_ica_ts.Ledger.Config.{CredentialLedgerConfig}
use dataspace_ica_ts.Ledger.Canonical.{hash_json}
use dataspace_ica_ts.Ledger.Projection.{
  decode_jwt_payload, check_identity, logical_credential_content, projection_of, vc_id,
  subject_id_of, build_credential_ledger_projection,
}
use dataspace_ica_ts.Ledger.Service.{
  Action, Adapter, WriteAction, CredentialLedgerWriteResult, ◌>>=◌, catch_unless, anchor,
  record_issued_credential, written, created, disabled,
}
use dataspace_ica_ts.Ledger.Laws.Contract.{IsLedger}
use dataspace_ica_ts.Ledger.Laws.Keeps.{catch_unless-state, >>=-give_state, anchor_absent}

-- The content of an asset, by its hash.
abbrev pub has_content : CredentialLedgerAsset → CredentialLedgerAsset → Bool
has_content a b = a.metadata.logical_content_hash == b.metadata.logical_content_hash

-- An asset that was built has the id and the logical content of its document.
pub build-content :
    (p : Platform) (vc : Entries) (jwt : String) (a : CredentialLedgerAsset)
    → build_credential_ledger_projection p vc jwt ≡ ok a
    → (a.id ≡ vc_id vc)
      × (a.metadata.logical_content_hash ≡ hash_json p (obj (logical_credential_content vc)))
unfolding build_credential_ledger_projection
build-content p vc jwt a built =
    let (payload, _, checked) = bind-ok (decode_jwt_payload p jwt) _ a built in
    let (_, _, made) =
      bind-ok
        (check_identity (vc_id vc) (subject_id_of vc) (as_string (field "jti" payload))
          (as_string (field "sub" payload)) payload)
        _ a checked in
    let same = ok_inj (projection_of p vc jwt payload) a made in
    rw (← same) (unfold projection_of in (refl, refl))

abbrev pub is_written : WriteAction → Bool
is_written disabled = false
is_written _ = true

pub catch_unless-ok :
    {L A : Type 0} (required : Bool) (fallback : A) (m : Action L A) (l : L) (a : A)
    → (catch_unless required fallback m l).0 ≡ ok a
    → ((m l).0 ≡ ok a) ⊎ (fallback ≡ a)
catch_unless-ok required fallback m l a h = elim (Result-cases (m l).0) [
  | inl (b, e) ↦ inl (rw (ok_inj b a (rw (catch_unless, e) at h)) at e)
  | inr (message, e) ↦ elim (Bool-cases required) [
    | inl r ↦ ground (arith, (rw (catch_unless, e, r) at h))
    | inr r ↦ inr (ok_inj fallback a (rw (catch_unless, e, r) at h))
  ]
]

module _ {L : Type 0} (p : Platform) (config : CredentialLedgerConfig) (adapter : Adapter L)
    (stored : String → L → Option CredentialLedgerAsset) (ledger : IsLedger adapter stored) where
  abbrev pub IsAnchored : CredentialLedgerAsset → L → Type 0
  IsAnchored a l = (b : CredentialLedgerAsset) × (stored a.id l ≡ some b) × (has_content b a ≡ true)

  pub anchor-IsAnchored :
      (a : CredentialLedgerAsset) (l : L) (r : CredentialLedgerWriteResult)
      → (anchor p config adapter a l).0 ≡ ok r
      → IsAnchored a (anchor p config adapter a l).1
  unfolding anchor
  anchor-IsAnchored a l r h = elim (Result-cases (adapter.read a.id l).0) [
    | inr (message, e) ↦ ground (arith, (rw (anchor, ◌>>=◌, e) at h))
    | inl (some found, e) ↦ elim (Bool-cases (has_content found a)) [
      | inl same ↦
          rw (anchor, ◌>>=◌, e)
            (
              found,
              rw (ledger.read_keeps a.id a.id l) (sym (ledger.read_stored a.id l (some found) e)),
              same,
            )
      | inr other ↦ ground (arith, (rw (anchor, ◌>>=◌, e, other) at h))
    ]
    | inl (none, e) ↦
        let l' = (adapter.read a.id l).1 in
        elim (Result-cases (adapter.create a l').0) [
          | inl (made, done) ↦ rw (anchor_absent p config adapter stored ledger a l e) (
              rw (>>=-give_state (adapter.create a) (λ x. ok (written created a.id x.1)) l')
                (a, ledger.create_stored a l' made done, eq_refl a.metadata.logical_content_hash))
          | inr (message, failed) ↦ ground (arith, (rw (anchor, ◌>>=◌, e, failed) at h))
        ]
  ]

  pub record_enabled :
      (vc : Entries) (jwt : String) (l : L) (a : CredentialLedgerAsset)
      → build_credential_ledger_projection p vc jwt ≡ ok a
      → config.enabled ≡ true
      → record_issued_credential p config adapter vc jwt l
        ≡ catch_unless config.required (written disabled a.id none) (anchor p config adapter a) l
  unfolding record_issued_credential
  record_enabled vc jwt l a built on = rw (record_issued_credential, built, on) refl

  -- A call that answers with anything but "disabled" has found or stored the content.
  pub record-IsAnchored :
      (vc : Entries) (jwt : String) (l : L) (r : CredentialLedgerWriteResult)
      (a : CredentialLedgerAsset)
      → build_credential_ledger_projection p vc jwt ≡ ok a
      → (record_issued_credential p config adapter vc jwt l).0 ≡ ok r
      → is_written r.action ≡ true
      → IsAnchored a (record_issued_credential p config adapter vc jwt l).1
  unfolding record_issued_credential
  record-IsAnchored vc jwt l r a built h wrote = elim (Bool-cases config.enabled) [
    | inr off ↦
        let same = ok_inj _ _ (rw (record_issued_credential, built, off) at h) in
        ground (arith, (rw (← same) at wrote))
    | inl on ↦
        elim (catch_unless-ok config.required (written disabled a.id none)
          (anchor p config adapter a) l r (rw (record_enabled vc jwt l a built on) at h)) [
            | inl done ↦ rw (record_enabled vc jwt l a built on) (
                rw
                  (catch_unless-state config.required (written disabled a.id none)
                    (anchor p config adapter a) l)
                  (anchor-IsAnchored a l r done))
            | inr same ↦ ground (arith, (rw (← same) at wrote))
          ]
  ]
