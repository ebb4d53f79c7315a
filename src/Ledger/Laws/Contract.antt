-- ===== src/Ledger/Laws/Contract.antt =====
-- What the code relies on of the ledger behind the adapter. `stored` is what the ledger holds under an
-- id; a call may fail, and an update that fails may have been applied or not. The `read` of
-- `FabricCredentialLedgerAdapter` gives no asset for every error whose text has "does not exist": it
-- meets `read_stored` where its network says so only of an id that has no asset.
use dataspace_ica_ts.Common.{String, ◌≡◌, ◌≢◌, ◌⊎◌, Option, some, ok}
use dataspace_ica_ts.Ledger.{AssetStatus, AssetMetadata, CredentialLedgerAsset}
use dataspace_ica_ts.Ledger.Service.{Adapter, StatusInput}

-- The asset after an update: the status and the metadata of the call.
pub record IsUpdated (status : AssetStatus) (metadata : AssetMetadata)
    (after : CredentialLedgerAsset) : Type 0 where
  pub set : after.status ≡ status
  pub kept : after.metadata ≡ metadata

pub record IsLedger {L : Type 0} (adapter : Adapter L)
    (stored : String → L → Option CredentialLedgerAsset) : Type 0 where
  -- A read that returns gives what is stored, and no read changes what is stored.
  pub read_stored :
      (id : String) (l : L) (o : Option CredentialLedgerAsset)
      → (adapter.read id l).0 ≡ ok o
      → o ≡ stored id l
  pub read_keeps : (id j : String) (l : L) → stored j (adapter.read id l).1 ≡ stored j l
  -- A creation that returns has stored the asset, and no creation changes another id.
  pub create_stored :
      (asset : CredentialLedgerAsset) (l : L) (r : CredentialLedgerAsset × Option String)
      → (adapter.create asset l).0 ≡ ok r
      → stored asset.id (adapter.create asset l).1 ≡ some asset
  pub create_other :
      (asset : CredentialLedgerAsset) (j : String) (l : L)
      → j ≢ asset.id
      → stored j (adapter.create asset l).1 ≡ stored j l
  -- An update of a stored asset that returns has been applied; one that fails has been or not; no
  -- update changes another id.
  pub update_stored :
      (id : String) (status : AssetStatus) (input : StatusInput) (metadata : AssetMetadata) (l : L)
      (r : CredentialLedgerAsset × Option String) (asset : CredentialLedgerAsset)
      → stored id l ≡ some asset
      → (adapter.update_status id status input metadata l).0 ≡ ok r
      → (after : CredentialLedgerAsset) × (stored id
            (adapter.update_status id status input metadata l).1
          ≡ some after)
        × IsUpdated status metadata after
  pub update_effect :
      (id : String) (status : AssetStatus) (input : StatusInput) (metadata : AssetMetadata) (l : L)
      (asset : CredentialLedgerAsset)
      → stored id l ≡ some asset
      → (stored id (adapter.update_status id status input metadata l).1 ≡ some asset)
        ⊎ ((after : CredentialLedgerAsset) × (stored id
                (adapter.update_status id status input metadata l).1
              ≡ some after)
            × IsUpdated status metadata after)
  pub update_other :
      (id j : String) (status : AssetStatus) (input : StatusInput) (metadata : AssetMetadata)
      (l : L)
      → j ≢ id
      → stored j (adapter.update_status id status input metadata l).1 ≡ stored j l
