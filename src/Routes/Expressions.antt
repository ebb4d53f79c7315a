-- ===== src/Routes/Expressions.antt =====
-- The expressions of src/api/path.ts, lines 47 to 84, one for each kind of route.
use Prim.Native.String
use dataspace_ica_ts.Common.{String, List, [], ◌∷◌, ◌++◌, map}
use dataspace_ica_ts.Routes.Pattern.{Segment, fixed, capture, after, one_of}

-- `^\/(?<tenantId>[^/]+)\/cds-(?<jurisdiction>[^/]+)\/v1\/(?<sector>[^/]+)\/` and what follows.
abbrev under_sector : List Segment → List Segment
under_sector rest = fixed "" ∷ capture ∷ after "cds-" ∷ fixed "v1" ∷ capture ∷ rest

-- `(?<action>(?:verb|verb|...)(?:-response)?)`
abbrev action : List String → Segment
action verbs = one_of (verbs ++ map (λ verb. String.◌++◌ verb "-response") verbs)

abbrev network_kinds : Segment
network_kinds = one_of ("terms" ∷ "test" ∷ "local-network" ∷ "test-network" ∷ "network" ∷ [])

abbrev pub verify_route : List Segment
verify_route = under_sector (network_kinds ∷ fixed "pdf" ∷ capture ∷ action ("_verify" ∷ []) ∷ [])

abbrev pub terms_remove_route : List Segment
terms_remove_route =
    under_sector (network_kinds ∷ fixed "pdf" ∷ capture ∷ action ("_remove" ∷ []) ∷ [])

abbrev pub entity_keys_route : List Segment
entity_keys_route = under_sector (
    fixed "entity"
    ∷ fixed "keys"
    ∷ one_of ("credentials" ∷ "communications" ∷ [])
    ∷ action ("_activate" ∷ "_rotate" ∷ [])
    ∷ [])

abbrev pub entity_did_document_route : List Segment
entity_did_document_route =
    under_sector (fixed "entity" ∷ fixed "did" ∷ fixed "document" ∷ action ("_create" ∷ []) ∷ [])

abbrev pub network_evidence_route : List Segment
network_evidence_route =
    under_sector (fixed "network" ∷ fixed "evidence" ∷ capture ∷ action ("_add" ∷ []) ∷ [])

abbrev pub network_policy_delegation_route : List Segment
network_policy_delegation_route =
    under_sector
      (fixed "network" ∷ fixed "policies" ∷ fixed "delegations" ∷ action ("_upsert" ∷ []) ∷ [])

abbrev pub network_credential_route : List Segment
network_credential_route =
    under_sector (fixed "network" ∷ fixed "credentials" ∷ capture ∷ action ("_issue" ∷ []) ∷ [])

abbrev pub network_credential_status_route : List Segment
network_credential_status_route =
    under_sector (fixed "network" ∷ fixed "credentials" ∷ capture ∷ action ("_status" ∷ []) ∷ [])

abbrev pub network_credential_revoke_route : List Segment
network_credential_revoke_route =
    under_sector (fixed "network" ∷ fixed "credentials" ∷ capture ∷ action ("_revoke" ∷ []) ∷ [])

abbrev pub network_credential_search_route : List Segment
network_credential_search_route =
    under_sector (fixed "network" ∷ fixed "credentials" ∷ capture ∷ action ("_search" ∷ []) ∷ [])

abbrev pub network_credential_retrieve_route : List Segment
network_credential_retrieve_route =
    under_sector (fixed "network" ∷ fixed "credentials" ∷ capture ∷ action ("_retrieve" ∷ []) ∷ [])

abbrev pub network_spaces_route : List Segment
network_spaces_route =
    under_sector (fixed "network" ∷ fixed "spaces" ∷ one_of ("_list" ∷ "_replace" ∷ []) ∷ [])

abbrev pub dcat_catalog_request_route : List Segment
dcat_catalog_request_route = under_sector (fixed "dcat3" ∷ fixed "catalog" ∷ fixed "request" ∷ [])

abbrev pub dcat_catalog_dataset_route : List Segment
dcat_catalog_dataset_route =
    under_sector (fixed "dcat3" ∷ fixed "catalog" ∷ fixed "datasets" ∷ capture ∷ [])

abbrev pub dcat_catalog_ddo_request_route : List Segment
dcat_catalog_ddo_request_route =
    under_sector (fixed "dcat3" ∷ fixed "catalog" ∷ fixed "ddo" ∷ fixed "request" ∷ [])

abbrev pub dcat_catalog_ddo_dataset_route : List Segment
dcat_catalog_ddo_dataset_route =
    under_sector (fixed "dcat3" ∷ fixed "catalog" ∷ fixed "ddo" ∷ fixed "datasets" ∷ capture ∷ [])

abbrev pub controller_exchange_route : List Segment
controller_exchange_route =
    under_sector
      (fixed "organization" ∷ fixed "dataspace" ∷ fixed "auth" ∷ action ("_exchange" ∷ []) ∷ [])

abbrev pub api_key_provisioning_route : List Segment
api_key_provisioning_route = under_sector (
    fixed "api-key"
    ∷ fixed "org.schema"
    ∷ fixed "action"
    ∷ action ("_create" ∷ "_disable" ∷ "_remove" ∷ "_search" ∷ [])
    ∷ [])

abbrev pub identity_auth_route : List Segment
identity_auth_route =
    under_sector (
      fixed "identity"
      ∷ fixed "auth"
      ∷ action ("_dcr" ∷ "_code" ∷ "_token" ∷ "_exchange" ∷ [])
      ∷ [])
