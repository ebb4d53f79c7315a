-- ===== src/Ledger.antt =====
-- src/api/tools/credential-ledger.ts: the registration of issued credentials on a ledger. The adapter
-- that speaks to Hyperledger Fabric is a parameter, as an interface with the calls that the code
-- declares; `Ledger.Service` has the calls of the service.
pub mod Config
pub mod Canonical
pub mod Projection
pub mod Service
pub mod Laws
pub mod Tests
use dataspace_ica_ts.Common.{String, List, Option, Result}
use dataspace_ica_ts.Json.{Json}

pub data AssetStatus : Type 0 where
  active suspended revoked expired : AssetStatus

-- An absent property is `none`.
pub record EvidenceRef : Type 0 where
  pub type : String
  pub document_txn : Option String
  pub verifier : Option String
  pub verified_at : Option String
  pub issuer : Option String
  pub serial_number : Option String
  pub created_at : Option String

pub record AssetIdentity : Type 0 where
  pub vc_id : String
  pub jwt_jti : String
  pub subject_id : String
  pub jwt_sub : String

-- The algorithm of all hashes is sha3-384.
pub record Representation : Type 0 where
  pub format : String
  pub hash_value : String

pub record AssetMetadata : Type 0 where
  pub credential_type : List String
  pub identity : AssetIdentity
  pub logical_content_hash : String
  pub representations : List Representation
  pub evidence_refs : List EvidenceRef

pub record CredentialLedgerAsset : Type 0 where
  pub id : String
  pub status : AssetStatus
  pub issued_at : String
  pub updated_at : String
  pub issuer : String
  pub subject : String
  pub metadata : AssetMetadata
  pub updated_by : Option String
  pub reason : Option String

-- What the platform gives: SHA3-384 of a text in base64url, `JSON.stringify`, and `JSON.parse` of the
-- text that base64url decodes to.
pub record Platform : Type 0 where
  pub digest : String → String
  pub stringify : Json → String
  pub parse_base64url : String → Result Json
