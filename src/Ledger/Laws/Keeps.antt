-- ===== src/Ledger/Laws/Keeps.antt =====
-- Whatever the service is asked to do, a registered asset keeps its content, and a revoked one its
-- status.
use dataspace_ica_ts.Common.{
  String, ◌≡◌, refl, sym, Bool, true, false, inl, inr, Bool-cases, Option-cases, Option, none, some,
  List, [], ◌∷◌, arith, ◌==◌, is_empty, eq_iff, Result, ok, Result-cases,
}
use dataspace_ica_ts.Json.{Json, Entries}
use dataspace_ica_ts.Ledger.{revoked, CredentialLedgerAsset, Platform}
use dataspace_ica_ts.Ledger.Config.{CredentialLedgerConfig}
use dataspace_ica_ts.Ledger.Projection.{build_credential_ledger_projection, vc_id}
use dataspace_ica_ts.Ledger.Service.{
  Action, Adapter, StatusInput, Attachment, ◌>>=◌, give, catch_unless, anchor,
  record_issued_credential, get_credential, revoke_asset, revoke_credential, credential_of, jwt_of,
  record_entry, record_issued_bundle, is_revoked, written, created, updated, disabled,
}
use dataspace_ica_ts.Ledger.Laws.Contract.{IsLedger}

-- An asset that was there is there, with the same content, and is revoked if it was.
abbrev pub Keeps : Option CredentialLedgerAsset → Option CredentialLedgerAsset → Type 0
Keeps none after = Unit
Keeps (some a) after =
    (b : CredentialLedgerAsset) × (after ≡ some b)
    × (b.metadata ≡ a.metadata)
    × (is_revoked a.status ≡ true → is_revoked b.status ≡ true)

pub Keeps-refl : (o : Option CredentialLedgerAsset) → Keeps o o
Keeps-refl none = tt
Keeps-refl (some a) = (a, refl, refl, λ h. h)

pub Keeps-trans : (o p q : Option CredentialLedgerAsset) → Keeps o p → Keeps p q → Keeps o q
Keeps-trans none p q h k = tt
Keeps-trans (some a) p q (b, e, same, still) k =
    let (c, e', same', still') = rw e at k in (c, e', rw same' same, λ r. still' (still r))

Keeps-of_eq : (o p : Option CredentialLedgerAsset) → p ≡ o → Keeps o p
Keeps-of_eq o p e = rw e (Keeps-refl o)

pub catch_unless-state :
    {L A : Type 0} (required : Bool) (fallback : A) (m : Action L A) (l : L)
    → (catch_unless required fallback m l).1 ≡ (m l).1
catch_unless-state required fallback m l = elim (Result-cases (m l).0) [
  | inl (a, e) ↦ rw (e, catch_unless) refl
  | inr (message, e) ↦ rw (e, catch_unless) refl
]

pub >>=-give_state :
    {L A B : Type 0} (m : Action L A) (f : A → Result B) (l : L)
    → ((m >>= λ a. give (f a)) l).1 ≡ (m l).1
>>=-give_state m f l = elim (Result-cases (m l).0) [
  | inl (a, e) ↦ rw (e, ◌>>=◌) refl
  | inr (message, e) ↦ rw (e, ◌>>=◌) refl
]

module _ {L : Type 0} (p : Platform) (config : CredentialLedgerConfig) (adapter : Adapter L)
    (stored : String → L → Option CredentialLedgerAsset) (ledger : IsLedger adapter stored) where
  pub read-Keeps : (id j : String) (l : L) → Keeps (stored j l) (stored j (adapter.read id l).1)
  read-Keeps id j l = Keeps-of_eq _ _ (ledger.read_keeps id j l)

  create-Keeps :
      (a : CredentialLedgerAsset) (j : String) (l : L)
      → stored a.id l ≡ none
      → Keeps (stored j l) (stored j (adapter.create a l).1)
  create-Keeps a j l h = elim (Bool-cases (j == a.id)) [
    | inl same ↦ rw ((eq_iff j a.id).0 same, h) tt
    | inr other ↦ Keeps-of_eq _ _ (ledger.create_other a j l (λ e. ground (arith, eq_iff j a.id)))
  ]

  pub anchor_absent :
      (a : CredentialLedgerAsset) (l : L)
      → (adapter.read a.id l).0 ≡ ok none
      → anchor p config adapter a l
        ≡ (adapter.create a >>= λ r. give (ok (written created a.id r.1))) (adapter.read a.id l).1
  unfolding anchor
  anchor_absent a l e = rw (anchor, ◌>>=◌, e) refl

  anchor-Keeps :
      (a : CredentialLedgerAsset) (j : String) (l : L)
      → Keeps (stored j l) (stored j (anchor p config adapter a l).1)
  unfolding anchor
  anchor-Keeps a j l = elim (Result-cases (adapter.read a.id l).0) [
    | inr (message, e) ↦ rw (anchor, ◌>>=◌, e) (read-Keeps a.id j l)
    | inl (none, e) ↦
        let absent : stored a.id (adapter.read a.id l).1 ≡ none =
          rw (ledger.read_keeps a.id a.id l) (sym (ledger.read_stored a.id l none e)) in
        rw (anchor_absent a l e) (
          rw
            (>>=-give_state (adapter.create a) (λ r. ok (written created a.id r.1))
              (adapter.read a.id l).1)
            (Keeps-trans _ _ _ (read-Keeps a.id j l)
              (create-Keeps a j (adapter.read a.id l).1 absent)))
    | inl (some found, e) ↦ rw (anchor, ◌>>=◌, e) (read-Keeps a.id j l)
  ]

  pub record-Keeps :
      (vc : Entries) (jwt j : String) (l : L)
      → Keeps (stored j l) (stored j (record_issued_credential p config adapter vc jwt l).1)
  unfolding record_issued_credential
  record-Keeps vc jwt j l = elim (Result-cases (build_credential_ledger_projection p vc jwt)) [
    | inr (message, e) ↦ rw (record_issued_credential, e) (Keeps-refl (stored j l))
    | inl (a, e) ↦ elim (Bool-cases config.enabled) [
      | inr off ↦ rw (record_issued_credential, e, off) (Keeps-refl (stored j l))
      | inl on ↦
          rw (record_issued_credential, e, on)
            (rw
              (catch_unless-state config.required (written disabled a.id none)
                (anchor p config adapter a) l)
              (anchor-Keeps a j l))
    ]
  ]

  pub get-Keeps :
      (id j : String) (l : L)
      → Keeps (stored j l) (stored j (get_credential p config adapter id l).1)
  unfolding get_credential
  get-Keeps id j l = elim (Bool-cases config.enabled) [
    | inr off ↦ rw (get_credential, off) (Keeps-refl (stored j l))
    | inl on ↦
        rw (get_credential, on)
          (rw (catch_unless-state config.required none (adapter.read id) l) (read-Keeps id j l))
  ]

  update-Keeps :
      (id j : String) (input : StatusInput) (a : CredentialLedgerAsset) (l : L)
      → stored id l ≡ some a
      → Keeps (stored j l) (stored j (adapter.update_status id revoked input a.metadata l).1)
  update-Keeps id j input a l h = elim (Bool-cases (j == id)) [
    | inl same ↦ elim (ledger.update_effect id revoked input a.metadata l a h) [
      | inl unchanged ↦ rw ((eq_iff j id).0 same, h) (a, unchanged, refl, λ r. r)
      | inr (after, e, u) ↦ rw ((eq_iff j id).0 same, h) (after, e, u.kept, λ _. rw u.set refl)
    ]
    | inr other ↦
        Keeps-of_eq _ _
          (ledger.update_other id j revoked input a.metadata l (λ e. ground (arith, eq_iff j id)))
  ]

  pub revoke_asset_open :
      (id : String) (input : StatusInput) (a : CredentialLedgerAsset) (l : L)
      → (adapter.read id l).0 ≡ ok (some a)
      → is_revoked a.status ≡ false
      → revoke_asset p config adapter id input l
        ≡ (adapter.update_status id revoked input a.metadata >>= λ r.
              give (ok (written updated id r.1)))
            (adapter.read id l).1
  unfolding revoke_asset
  revoke_asset_open id input a l e active_still = rw (revoke_asset, ◌>>=◌, e, active_still) refl

  revoke_asset-Keeps :
      (id j : String) (input : StatusInput) (l : L)
      → Keeps (stored j l) (stored j (revoke_asset p config adapter id input l).1)
  unfolding revoke_asset
  revoke_asset-Keeps id j input l = elim (Result-cases (adapter.read id l).0) [
    | inr (message, e) ↦ rw (revoke_asset, ◌>>=◌, e) (read-Keeps id j l)
    | inl (none, e) ↦ rw (revoke_asset, ◌>>=◌, e) (read-Keeps id j l)
    | inl (some a, e) ↦ elim (Bool-cases (is_revoked a.status)) [
      | inl done ↦ rw (revoke_asset, ◌>>=◌, e, done) (read-Keeps id j l)
      | inr active_still ↦
          let l' = (adapter.read id l).1 in
          let there : stored id l' ≡ some a =
            rw (ledger.read_keeps id id l) (sym (ledger.read_stored id l (some a) e)) in
          rw (revoke_asset_open id input a l e active_still) (
            rw
              (>>=-give_state (adapter.update_status id revoked input a.metadata)
                (λ r. ok (written updated id r.1)) l')
              (Keeps-trans _ _ _ (read-Keeps id j l) (update-Keeps id j input a l' there)))
    ]
  ]

  pub revoke-Keeps :
      (id j : String) (input : StatusInput) (l : L)
      → Keeps (stored j l) (stored j (revoke_credential p config adapter id input l).1)
  unfolding revoke_credential
  revoke-Keeps id j input l = elim (Bool-cases config.enabled) [
    | inr off ↦ rw (revoke_credential, off) (Keeps-refl (stored j l))
    | inl on ↦
        rw (revoke_credential, on)
          (rw
            (catch_unless-state config.required (written disabled id none)
              (revoke_asset p config adapter id input) l)
            (revoke_asset-Keeps id j input l))
  ]

  pub entry-Keeps :
      (attachments : List Attachment) (vc : Entries) (j : String) (l : L)
      → Keeps (stored j l) (stored j (record_entry p config adapter attachments vc l).1)
  unfolding record_entry
  entry-Keeps attachments vc j l = elim (Bool-cases (is_empty (jwt_of attachments (vc_id vc)))) [
    | inl missing ↦ rw (record_entry, missing) (Keeps-refl (stored j l))
    | inr there ↦ rw (record_entry, there) (record-Keeps vc (jwt_of attachments (vc_id vc)) j l)
  ]

  pub bundle-Keeps :
      (resources : List (Option Json)) (attachments : List Attachment) (j : String) (l : L)
      → Keeps
          (stored j l)
          (stored j (record_issued_bundle p config adapter resources attachments l).1)
  unfolding record_issued_bundle
  bundle-Keeps [] attachments j l = Keeps-refl (stored j l)
  bundle-Keeps (resource ∷ resources) attachments j l =
      elim (Option-cases (credential_of resource)) [
        | inl other ↦ rw (record_issued_bundle, other) (bundle-Keeps resources attachments j l)
        | inr (vc, e) ↦
            let l' = (record_entry p config adapter attachments vc l).1 in
            elim (Result-cases (record_entry p config adapter attachments vc l).0) [
              | inr (message, failed) ↦
                  rw (record_issued_bundle, e) (rw (◌>>=◌, failed) (entry-Keeps attachments vc j l))
              | inl (result, done) ↦
                  rw (record_issued_bundle, e)
                    (rw (◌>>=◌, done)
                      (rw
                        (>>=-give_state
                          (record_issued_bundle p config adapter resources attachments)
                          (λ results. ok (result ∷ results)) l')
                        (Keeps-trans _ _ _ (entry-Keeps attachments vc j l)
                          (bundle-Keeps resources attachments j l'))))
            ]
      ]
