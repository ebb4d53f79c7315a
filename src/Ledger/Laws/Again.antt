-- ===== src/Ledger/Laws/Again.antt =====
-- What an earlier call of the service gives to a later one, whatever was called in between.
use dataspace_ica_ts.Common.{
  String, ◌≡◌, refl, sym, true, false, inl, inr, Bool-cases, Option, none, some, List, [], ◌∷◌,
  arith, ok, throw, Result-cases, ok_inj, if◌then◌else◌,
}
use dataspace_ica_ts.Text.{join}
use dataspace_ica_ts.Json.{Entries}
use dataspace_ica_ts.Ledger.{revoked, CredentialLedgerAsset, Platform}
use dataspace_ica_ts.Ledger.Config.{CredentialLedgerConfig}
use dataspace_ica_ts.Ledger.Projection.{build_credential_ledger_projection}
use dataspace_ica_ts.Ledger.Service.{
  Adapter, StatusInput, CredentialLedgerWriteResult, ◌>>=◌, catch_unless, anchor,
  record_issued_credential, get_credential, revoke_asset, revoke_credential, is_revoked, written,
  updated, skipped, disabled,
}
use dataspace_ica_ts.Ledger.Laws.Contract.{IsLedger}
use dataspace_ica_ts.Ledger.Laws.Keeps.{catch_unless-state, >>=-give_state, revoke_asset_open}
use dataspace_ica_ts.Ledger.Laws.History.{Operation, perform_all, perform_all-Keeps}
use dataspace_ica_ts.Ledger.Laws.Anchored.{
  has_content, is_written, IsAnchored, record-IsAnchored, catch_unless-ok, record_enabled,
}

module _ {L : Type 0} (p : Platform) (config : CredentialLedgerConfig) (adapter : Adapter L)
    (stored : String → L → Option CredentialLedgerAsset) (ledger : IsLedger adapter stored) where
  -- What is anchored stays anchored.
  pub perform_all-IsAnchored :
      (ops : List Operation) (a : CredentialLedgerAsset) (l : L)
      → IsAnchored p config adapter stored ledger a l
      → IsAnchored p config adapter stored ledger a (perform_all p config adapter ops l)
  perform_all-IsAnchored ops a l (b, e, same) =
      let (c, e', kept, _) =
        rw e at (perform_all-Keeps p config adapter stored ledger ops a.id l) in
      (c, e', rw kept same)

  anchor_known :
      (a : CredentialLedgerAsset) (l : L) (o : Option CredentialLedgerAsset)
      → IsAnchored p config adapter stored ledger a l
      → (adapter.read a.id l).0 ≡ ok o
      → (anchor p config adapter a l).0 ≡ ok (written skipped a.id none)
  unfolding anchor
  anchor_known a l o (b, there, same) e =
      let read : (adapter.read a.id l).0 ≡ ok (some b) =
        rw (ledger.read_stored a.id l o e, there) at e in
      rw (anchor, ◌>>=◌, read, same) refl

  record_enabled_of_written :
      (vc : Entries) (jwt : String) (l : L) (r : CredentialLedgerWriteResult)
      (a : CredentialLedgerAsset)
      → build_credential_ledger_projection p vc jwt ≡ ok a
      → (record_issued_credential p config adapter vc jwt l).0 ≡ ok r
      → is_written r.action ≡ true
      → config.enabled ≡ true
  unfolding record_issued_credential
  record_enabled_of_written vc jwt l r a built h wrote = elim (Bool-cases config.enabled) [
    | inl on ↦ on
    | inr off ↦
        let same = ok_inj _ _ (rw (record_issued_credential, built, off) at h) in
        ground (arith, (rw (← same) at wrote))
  ]

-- A credential that was once recorded is not recorded a second time: after a call that did not answer
-- "disabled", and any further calls of the service, the same credential is answered with "skipped" as
-- soon as the ledger can be read.
pub record_issued_credential-again :
    {L : Type 0} (p : Platform) (config : CredentialLedgerConfig) (adapter : Adapter L)
    (stored : String → L → Option CredentialLedgerAsset) (ledger : IsLedger adapter stored)
    (vc : Entries) (jwt : String) (l : L) (r : CredentialLedgerWriteResult)
    (a : CredentialLedgerAsset) (ops : List Operation) (o : Option CredentialLedgerAsset)
    → build_credential_ledger_projection p vc jwt ≡ ok a
    → (record_issued_credential p config adapter vc jwt l).0 ≡ ok r
    → is_written r.action ≡ true
    → (adapter.read a.id
        (perform_all p config adapter ops (record_issued_credential p config adapter vc jwt l).1)).0
      ≡ ok o
    → (record_issued_credential p config adapter vc jwt
        (perform_all p config adapter ops (record_issued_credential p config adapter vc jwt l).1)).0
      ≡ ok (written skipped a.id none)
record_issued_credential-again p config adapter stored ledger vc jwt l r a ops o built h wrote
      read =
    let later =
      perform_all p config adapter ops (record_issued_credential p config adapter vc jwt l).1 in
    let on = record_enabled_of_written p config adapter stored ledger vc jwt l r a built h wrote in
    let known =
      anchor_known p config adapter stored ledger a later o
        (perform_all-IsAnchored p config adapter stored ledger ops a _
          (record-IsAnchored p config adapter stored ledger vc jwt l r a built h wrote))
        read in
    rw (record_enabled p config adapter stored ledger vc jwt later a built on)
      (rw (catch_unless, known) refl)

-- Where the ledger is enabled, behaves as `IsLedger` says and can be read, a credential whose id is on
-- it with another logical content hash is refused with an error if the ledger is required, and
-- answered with "disabled", without an error, if it is not; the ledger holds what it held.
pub record_issued_credential-conflict :
    {L : Type 0} (p : Platform) (config : CredentialLedgerConfig) (adapter : Adapter L)
    (stored : String → L → Option CredentialLedgerAsset) (ledger : IsLedger adapter stored)
    (vc : Entries) (jwt : String) (l : L) (a b : CredentialLedgerAsset)
    → build_credential_ledger_projection p vc jwt ≡ ok a
    → config.enabled ≡ true
    → (adapter.read a.id l).0 ≡ ok (some b)
    → has_content b a ≡ false
    → ((record_issued_credential p config adapter vc jwt l).0 ≡ (
        if config.required
        then throw (
            join "" (
              "Credential " ∷ a.id ∷ " already exists with a different logical content hash." ∷ []))
        else ok (written disabled a.id none)))
      × ((j : String)
          → stored j (record_issued_credential p config adapter vc jwt l).1 ≡ stored j l)
unfolding anchor
record_issued_credential-conflict p config adapter stored ledger vc jwt l a b built on read other =
    let refused = record_enabled p config adapter stored ledger vc jwt l a built on in
    (
      rw refused (rw (catch_unless, anchor, ◌>>=◌, read, other) refl),
      λ j. rw refused (
          rw
            (catch_unless-state config.required (written disabled a.id none)
              (anchor p config adapter a) l)
            (rw (anchor, ◌>>=◌, read) (ledger.read_keeps a.id j l))),
    )

module _ {L : Type 0} (p : Platform) (config : CredentialLedgerConfig) (adapter : Adapter L)
    (stored : String → L → Option CredentialLedgerAsset) (ledger : IsLedger adapter stored) where
  abbrev IsRevoked : String → L → Type 0
  IsRevoked id l =
      (b : CredentialLedgerAsset) × (stored id l ≡ some b) × (is_revoked b.status ≡ true)

  revoke_asset-IsRevoked :
      (id : String) (input : StatusInput) (l : L) (r : CredentialLedgerWriteResult)
      → (revoke_asset p config adapter id input l).0 ≡ ok r
      → IsRevoked id (revoke_asset p config adapter id input l).1
  unfolding revoke_asset
  revoke_asset-IsRevoked id input l r h = elim (Result-cases (adapter.read id l).0) [
    | inr (message, e) ↦ ground (arith, (rw (revoke_asset, ◌>>=◌, e) at h))
    | inl (none, e) ↦ ground (arith, (rw (revoke_asset, ◌>>=◌, e) at h))
    | inl (some a, e) ↦
        let l' = (adapter.read id l).1 in
        let there : stored id l' ≡ some a =
          rw (ledger.read_keeps id id l) (sym (ledger.read_stored id l (some a) e)) in
        elim (Bool-cases (is_revoked a.status)) [
          | inl done ↦ rw (revoke_asset, ◌>>=◌, e, done) (a, there, done)
          | inr active_still ↦
              elim (Result-cases (adapter.update_status id revoked input a.metadata l').0) [
                | inr (message, failed) ↦
                    ground (arith, (rw (revoke_asset, ◌>>=◌, e, active_still, failed) at h))
                | inl (result, done) ↦
                    let (b, e', u) =
                      ledger.update_stored id revoked input a.metadata l' result a there done in
                    rw
                      (revoke_asset_open p config adapter stored ledger id input a l e active_still)
                      (rw
                        (>>=-give_state (adapter.update_status id revoked input a.metadata)
                          (λ x. ok (written updated id x.1)) l')
                        (b, e', rw u.set refl))
              ]
        ]
  ]

  revoke-IsRevoked :
      (id : String) (input : StatusInput) (l : L) (r : CredentialLedgerWriteResult)
      → (revoke_credential p config adapter id input l).0 ≡ ok r
      → is_written r.action ≡ true
      → (config.enabled ≡ true) × IsRevoked id (revoke_credential p config adapter id input l).1
  unfolding revoke_credential
  revoke-IsRevoked id input l r h wrote = elim (Bool-cases config.enabled) [
    | inr off ↦
        let same = ok_inj _ _ (rw (revoke_credential, off) at h) in
        ground (arith, (rw (← same) at wrote))
    | inl on ↦
        elim (catch_unless-ok config.required (written disabled id none)
          (revoke_asset p config adapter id input) l r (rw (revoke_credential, on) at h)) [
            | inl done ↦ (
              on,
              rw (revoke_credential, on)
                  (rw
                    (catch_unless-state config.required (written disabled id none)
                      (revoke_asset p config adapter id input) l)
                    (revoke_asset-IsRevoked id input l r done)),
            )
            | inr same ↦ ground (arith, (rw (← same) at wrote))
          ]
  ]

  get_found :
      (id : String) (l : L) (c : CredentialLedgerAsset)
      → config.enabled ≡ true
      → (adapter.read id l).0 ≡ ok (some c)
      → (get_credential p config adapter id l).0 ≡ ok (some c)
  unfolding get_credential
  get_found id l c on found = rw (get_credential, on) (rw (catch_unless, found) refl)

-- A revocation lasts: after a call of `revokeCredential` that did not answer "disabled", and any further
-- calls of the service, `getCredential` finds a revoked asset whenever the ledger can be read.
pub get_credential-revoke :
    {L : Type 0} (p : Platform) (config : CredentialLedgerConfig) (adapter : Adapter L)
    (stored : String → L → Option CredentialLedgerAsset) (ledger : IsLedger adapter stored)
    (id : String) (input : StatusInput) (l : L) (r : CredentialLedgerWriteResult)
    (ops : List Operation) (o : Option CredentialLedgerAsset)
    → (revoke_credential p config adapter id input l).0 ≡ ok r
    → is_written r.action ≡ true
    → (adapter.read id
        (perform_all p config adapter ops (revoke_credential p config adapter id input l).1)).0
      ≡ ok o
    → (b : CredentialLedgerAsset) × ((get_credential p config adapter id
          (perform_all p config adapter ops (revoke_credential p config adapter id input l).1)).0
        ≡ ok (some b))
      × (is_revoked b.status ≡ true)
get_credential-revoke p config adapter stored ledger id input l r ops o h wrote read =
    let after = (revoke_credential p config adapter id input l).1 in
    let later = perform_all p config adapter ops after in
    let (on, (b, there, done)) =
      revoke-IsRevoked p config adapter stored ledger id input l r h wrote in
    let (c, e, _, still) =
      rw there at (perform_all-Keeps p config adapter stored ledger ops id after) in
    let found : (adapter.read id later).0 ≡ ok (some c) =
      rw (ledger.read_stored id later o read, e) at read in
    (c, get_found p config adapter stored ledger id later c on found, still done)
