-- ===== src/Routes/Contexts.antt =====
-- What the parsers return: the route contexts of src/api/types.ts. A field whose type in the source
-- is a union of literals is a text; `section` of a document route is a kind of network.
use dataspace_ica_ts.Common.{String}
use dataspace_ica_ts.Config.Network.{NetworkKind}

-- `VerifyRouteContext` and `TermsRemoveRouteContext`, which have the same fields.
pub record DocumentRouteContext : Type 0 where
  pub tenant_id : String
  pub jurisdiction : String
  pub sector : String
  pub section : NetworkKind
  pub format : String
  pub resource_type : String
  pub action : String

-- `RotateRouteContext`, `CreateDidDocumentRouteContext` and the context of an activation.
pub record EntityRouteContext : Type 0 where
  pub tenant_id : String
  pub jurisdiction : String
  pub sector : String
  pub section : String
  pub format : String
  pub resource_type : String
  pub action : String

pub record AddEvidenceRouteContext : Type 0 where
  pub tenant_id : String
  pub jurisdiction : String
  pub sector : String
  pub section : String
  pub format : String
  pub evidence_type : String
  pub action : String

pub record DelegationPolicyRouteContext : Type 0 where
  pub tenant_id : String
  pub jurisdiction : String
  pub sector : String
  pub section : String
  pub format : String
  pub policy_type : String
  pub action : String

-- The contexts of issuing, status, revocation, search and retrieval, which differ in the action.
pub record CredentialRouteContext : Type 0 where
  pub tenant_id : String
  pub jurisdiction : String
  pub sector : String
  pub section : String
  pub format : String
  pub credential_type : String
  pub action : String

-- The contexts of the spaces, of the three kinds of access routes and of the catalog requests.
pub record PlainRouteContext : Type 0 where
  pub tenant_id : String
  pub jurisdiction : String
  pub sector : String
  pub section : String
  pub format : String
  pub action : String

pub record DatasetRouteContext : Type 0 where
  pub tenant_id : String
  pub jurisdiction : String
  pub sector : String
  pub section : String
  pub format : String
  pub action : String
  pub dataset_id : String
