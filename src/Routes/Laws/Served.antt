-- ===== src/Routes/Laws/Served.antt =====
-- Whichever parser accepts a path, its route is one of this deployment.
use dataspace_ica_ts.Common.{String, ◌≡◌, some}
use dataspace_ica_ts.Text.{trim, to_lower}
use dataspace_ica_ts.Text.Laws.{to_lower_idem}
use dataspace_ica_ts.Text.Slashes.{NoSlash}
use dataspace_ica_ts.Jobs.Activation.{ActivateRouteContext}
use dataspace_ica_ts.Routes.Expressions.{
  verify_route, terms_remove_route, entity_did_document_route, network_evidence_route,
  network_policy_delegation_route, network_spaces_route, dcat_catalog_request_route,
  dcat_catalog_dataset_route, dcat_catalog_ddo_request_route, dcat_catalog_ddo_dataset_route,
  controller_exchange_route, api_key_provisioning_route, identity_auth_route,
}
use dataspace_ica_ts.Routes.Contexts.{
  DocumentRouteContext, EntityRouteContext, AddEvidenceRouteContext, DelegationPolicyRouteContext,
  CredentialRouteContext, PlainRouteContext, DatasetRouteContext,
}
use dataspace_ica_ts.Routes.Scope.{RouteEnv, parsed}
use dataspace_ica_ts.Routes.Documents.{
  verify_groups, terms_remove_groups, parse_verify_route, parse_terms_remove_route,
}
use dataspace_ica_ts.Routes.Entity.{
  did_document_groups, parse_activate_route, parse_rotate_route, parse_create_did_document_route,
}
use dataspace_ica_ts.Routes.Network.{
  add_evidence_groups, delegation_policy_groups, spaces_groups, parse_add_evidence_route,
  parse_delegation_policy_route, parse_spaces_route,
}
use dataspace_ica_ts.Routes.Access.{
  auth_groups, as_controller_exchange_action, as_api_key_provisioning_action,
  as_identity_auth_action, parse_controller_exchange_route, parse_api_key_provisioning_route,
  parse_identity_auth_route,
}
use dataspace_ica_ts.Routes.Dcat.{
  request_groups, dataset_groups, parse_dcat_catalog_request_route,
  parse_dcat_catalog_dataset_route, parse_dcat_catalog_ddo_request_route,
  parse_dcat_catalog_ddo_dataset_route,
}
use dataspace_ica_ts.Routes.Laws.Accepted.{IsInScope}
use dataspace_ica_ts.Routes.Laws.Canonical.{IsCanonical, IsCanonical-IsInScope}
use dataspace_ica_ts.Routes.Laws.Verbs.{CredentialVerb, parse_verb, parse_verb-IsAcceptedCredential}
use dataspace_ica_ts.Routes.Laws.Documents.{verify_groups-IsAcceptedDocument}
use dataspace_ica_ts.Routes.Laws.Groups.{
  terms_remove_groups-IsCanonical, did_document_groups-IsCanonical, add_evidence_groups-IsCanonical,
  delegation_policy_groups-IsCanonical, spaces_groups-IsCanonical, auth_groups-IsCanonical,
  request_groups-IsCanonical, dataset_groups-IsCanonical,
}
use dataspace_ica_ts.Routes.Laws.Parsers.{
  groups_of_accepted, activate-IsCanonical, rotate-IsCanonical,
}

-- One of the parsers accepts the path, for this tenant, jurisdiction and sector.
pub data IsRoute (env : RouteEnv) (pathname : String) : String → String → String → Type 0 where
  verify :
      (c : DocumentRouteContext)
      → parse_verify_route env pathname ≡ some (parsed c)
      → IsRoute env pathname c.tenant_id c.jurisdiction c.sector
  terms_remove :
      (c : DocumentRouteContext)
      → parse_terms_remove_route env pathname ≡ some (parsed c)
      → IsRoute env pathname c.tenant_id c.jurisdiction c.sector
  activate :
      (c : ActivateRouteContext)
      → parse_activate_route env pathname ≡ some (parsed c)
      → IsRoute env pathname c.tenant_id c.jurisdiction c.sector
  rotate :
      (c : EntityRouteContext)
      → parse_rotate_route env pathname ≡ some (parsed c)
      → IsRoute env pathname c.tenant_id c.jurisdiction c.sector
  did_document :
      (c : EntityRouteContext)
      → parse_create_did_document_route env pathname ≡ some (parsed c)
      → IsRoute env pathname c.tenant_id c.jurisdiction c.sector
  evidence :
      (c : AddEvidenceRouteContext)
      → parse_add_evidence_route env pathname ≡ some (parsed c)
      → IsRoute env pathname c.tenant_id c.jurisdiction c.sector
  policy :
      (c : DelegationPolicyRouteContext)
      → parse_delegation_policy_route env pathname ≡ some (parsed c)
      → IsRoute env pathname c.tenant_id c.jurisdiction c.sector
  spaces :
      (c : PlainRouteContext)
      → parse_spaces_route env pathname ≡ some (parsed c)
      → IsRoute env pathname c.tenant_id c.jurisdiction c.sector
  exchange :
      (c : PlainRouteContext)
      → parse_controller_exchange_route env pathname ≡ some (parsed c)
      → IsRoute env pathname c.tenant_id c.jurisdiction c.sector
  api_key :
      (c : PlainRouteContext)
      → parse_api_key_provisioning_route env pathname ≡ some (parsed c)
      → IsRoute env pathname c.tenant_id c.jurisdiction c.sector
  identity :
      (c : PlainRouteContext)
      → parse_identity_auth_route env pathname ≡ some (parsed c)
      → IsRoute env pathname c.tenant_id c.jurisdiction c.sector
  request :
      (c : PlainRouteContext)
      → parse_dcat_catalog_request_route env pathname ≡ some (parsed c)
      → IsRoute env pathname c.tenant_id c.jurisdiction c.sector
  dataset :
      (c : DatasetRouteContext)
      → parse_dcat_catalog_dataset_route env pathname ≡ some (parsed c)
      → IsRoute env pathname c.tenant_id c.jurisdiction c.sector
  ddo_request :
      (c : PlainRouteContext)
      → parse_dcat_catalog_ddo_request_route env pathname ≡ some (parsed c)
      → IsRoute env pathname c.tenant_id c.jurisdiction c.sector
  ddo_dataset :
      (c : DatasetRouteContext)
      → parse_dcat_catalog_ddo_dataset_route env pathname ≡ some (parsed c)
      → IsRoute env pathname c.tenant_id c.jurisdiction c.sector
  credential :
      (verb : CredentialVerb) (c : CredentialRouteContext)
      → parse_verb verb env pathname ≡ some (parsed c)
      → IsRoute env pathname c.tenant_id c.jurisdiction c.sector

-- The tenant is not blank and, where the deployment names one, it is that one; the jurisdiction and the
-- sector are supported; no text holds a slash, and the sector is in lower case.
pub record IsServed (env : RouteEnv) (tenant_id jurisdiction sector : String) : Type 0 where
  pub scope : IsInScope env tenant_id jurisdiction sector
  pub whole_tenant : NoSlash tenant_id
  pub whole_place : NoSlash jurisdiction
  pub whole_sector : NoSlash sector
  pub folded : to_lower sector ≡ sector

IsCanonical-IsServed :
    (env : RouteEnv) (t j s : String) → IsCanonical env t j s → IsServed env t j s
IsCanonical-IsServed env t j s h = record {
  scope = IsCanonical-IsInScope h;
  whole_tenant = h.whole_tenant;
  whole_place = h.whole_place;
  whole_sector = h.whole_sector;
  folded = cc (h.folded, to_lower_idem (trim s));
}

module _ (env : RouteEnv) (pathname : String) where
  IsRoute-IsCanonical : (t j s : String) → IsRoute env pathname t j s → IsCanonical env t j s
  unfolding parse_verify_route parse_terms_remove_route parse_create_did_document_route
      parse_add_evidence_route parse_delegation_policy_route parse_spaces_route
      parse_controller_exchange_route parse_api_key_provisioning_route parse_identity_auth_route
      parse_dcat_catalog_request_route parse_dcat_catalog_dataset_route
      parse_dcat_catalog_ddo_request_route parse_dcat_catalog_ddo_dataset_route
  IsRoute-IsCanonical _ _ _ (verify c h) =
      let (groups, whole, e) = groups_of_accepted verify_route (verify_groups env) pathname c h in
      let accepted = verify_groups-IsAcceptedDocument env c groups whole e in accepted.scope
  IsRoute-IsCanonical _ _ _ (terms_remove c h) =
      let (groups, whole, e) =
        groups_of_accepted terms_remove_route (terms_remove_groups env) pathname c h in
      terms_remove_groups-IsCanonical env groups c whole e
  IsRoute-IsCanonical _ _ _ (did_document c h) =
      let (groups, whole, e) =
        groups_of_accepted entity_did_document_route (did_document_groups env) pathname c h in
      did_document_groups-IsCanonical env groups c whole e
  IsRoute-IsCanonical _ _ _ (evidence c h) =
      let (groups, whole, e) =
        groups_of_accepted network_evidence_route (add_evidence_groups env) pathname c h in
      add_evidence_groups-IsCanonical env groups c whole e
  IsRoute-IsCanonical _ _ _ (policy c h) =
      let (groups, whole, e) =
        groups_of_accepted network_policy_delegation_route (delegation_policy_groups env) pathname c
          h in
      delegation_policy_groups-IsCanonical env groups c whole e
  IsRoute-IsCanonical _ _ _ (spaces c h) =
      let (groups, whole, e) =
        groups_of_accepted network_spaces_route (spaces_groups env) pathname c h in
      spaces_groups-IsCanonical env groups c whole e
  IsRoute-IsCanonical _ _ _ (exchange c h) =
      let (groups, whole, e) =
        groups_of_accepted controller_exchange_route
          (auth_groups as_controller_exchange_action "organization" "dataspace-auth" env) pathname c
          h in
      auth_groups-IsCanonical env as_controller_exchange_action "organization" "dataspace-auth"
        groups c whole e
  IsRoute-IsCanonical _ _ _ (api_key c h) =
      let (groups, whole, e) =
        groups_of_accepted api_key_provisioning_route
          (auth_groups as_api_key_provisioning_action "api-key" "org.schema.action" env) pathname c
          h in
      auth_groups-IsCanonical env as_api_key_provisioning_action "api-key" "org.schema.action"
        groups c whole e
  IsRoute-IsCanonical _ _ _ (identity c h) =
      let (groups, whole, e) =
        groups_of_accepted identity_auth_route
          (auth_groups as_identity_auth_action "identity" "auth" env) pathname c h in
      auth_groups-IsCanonical env as_identity_auth_action "identity" "auth" groups c whole e
  IsRoute-IsCanonical _ _ _ (request c h) =
      let (groups, whole, e) =
        groups_of_accepted dcat_catalog_request_route (request_groups "catalog" "request" env)
          pathname c h in
      request_groups-IsCanonical env "catalog" "request" groups c whole e
  IsRoute-IsCanonical _ _ _ (dataset c h) =
      let (groups, whole, e) =
        groups_of_accepted dcat_catalog_dataset_route (dataset_groups "catalog" "dataset" env)
          pathname c h in
      dataset_groups-IsCanonical env "catalog" "dataset" groups c whole e
  IsRoute-IsCanonical _ _ _ (ddo_request c h) =
      let (groups, whole, e) =
        groups_of_accepted dcat_catalog_ddo_request_route
          (request_groups "catalog-ddo" "ddo-request" env) pathname c h in
      request_groups-IsCanonical env "catalog-ddo" "ddo-request" groups c whole e
  IsRoute-IsCanonical _ _ _ (ddo_dataset c h) =
      let (groups, whole, e) =
        groups_of_accepted dcat_catalog_ddo_dataset_route
          (dataset_groups "catalog-ddo" "ddo-dataset" env) pathname c h in
      dataset_groups-IsCanonical env "catalog-ddo" "ddo-dataset" groups c whole e
  IsRoute-IsCanonical _ _ _ (activate c h) = activate-IsCanonical env pathname c h
  IsRoute-IsCanonical _ _ _ (rotate c h) = rotate-IsCanonical env pathname c h
  IsRoute-IsCanonical _ _ _ (credential verb c h) =
      let accepted = parse_verb-IsAcceptedCredential verb env pathname c h in accepted.scope

-- Whichever of the twenty parsers accepts a path, the tenant of its route is not blank and is, without
-- regard to case, the one that the deployment names, if it names one; its jurisdiction and its sector
-- are supported; the sector is in lower case, and none of the three holds a slash.
pub IsRoute-IsServed :
    (env : RouteEnv) (pathname tenant_id jurisdiction sector : String)
    → IsRoute env pathname tenant_id jurisdiction sector
    → IsServed env tenant_id jurisdiction sector
IsRoute-IsServed env pathname t j s h =
    IsCanonical-IsServed env t j s (IsRoute-IsCanonical env pathname t j s h)
