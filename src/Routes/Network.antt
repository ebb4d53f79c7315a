-- ===== src/Routes/Network.antt =====
-- src/api/path.ts: the routes of evidence, of delegation policies and of the registered spaces.
use dataspace_ica_ts.Common.{
  String, Option, none, some, List, [], ◌∷◌, ◌==◌, if◌then◌else◌, is_empty,
}
use dataspace_ica_ts.Text.{trim, to_lower}
use dataspace_ica_ts.Routes.Pattern.{exec}
use dataspace_ica_ts.Routes.Expressions.{
  network_evidence_route, network_policy_delegation_route, network_spaces_route,
}
use dataspace_ica_ts.Routes.Contexts.{
  AddEvidenceRouteContext, DelegationPolicyRouteContext, PlainRouteContext,
}
use dataspace_ica_ts.Routes.Scope.{RouteEnv, Parsed, parsed, ◌>>◌, refuse_if, check_scope}

unfoldable pub as_add_evidence_action : String → String
as_add_evidence_action raw = if to_lower raw == "_add-response" then "_add-response" else "_add"

unfoldable pub as_delegation_policy_action : String → String
as_delegation_policy_action raw =
    if to_lower raw == "_upsert-response" then "_upsert-response" else "_upsert"

unfoldable pub as_spaces_action : String → String
as_spaces_action raw = if to_lower raw == "_replace" then "_replace" else "_list"

unfoldable pub add_evidence_groups :
    RouteEnv → List String → Option (Parsed AddEvidenceRouteContext)
unfolding as_add_evidence_action
add_evidence_groups env (tenant ∷ jurisdiction ∷ sector ∷ evidence_type ∷ action ∷ []) = some do
  check_scope env (trim tenant) (trim jurisdiction) (to_lower (trim sector))
  refuse_if (is_empty (to_lower (trim evidence_type))) "evidenceType is required in path."
  parsed (record {
    tenant_id = trim tenant;
    jurisdiction = trim jurisdiction;
    sector = to_lower (trim sector);
    section = "network";
    format = "evidence";
    evidence_type = to_lower (trim evidence_type);
    action = as_add_evidence_action (trim action);
  })
add_evidence_groups env _ = none

unfoldable pub parse_add_evidence_route :
    RouteEnv → String → Option (Parsed AddEvidenceRouteContext)
unfolding add_evidence_groups
parse_add_evidence_route env pathname = elim (exec network_evidence_route pathname) [
  | none ↦ none
  | some groups ↦ add_evidence_groups env groups
]

unfoldable pub delegation_policy_groups :
    RouteEnv → List String → Option (Parsed DelegationPolicyRouteContext)
unfolding as_delegation_policy_action
delegation_policy_groups env (tenant ∷ jurisdiction ∷ sector ∷ action ∷ []) = some do
  check_scope env (trim tenant) (trim jurisdiction) (to_lower (trim sector))
  parsed (record {
    tenant_id = trim tenant;
    jurisdiction = trim jurisdiction;
    sector = to_lower (trim sector);
    section = "network";
    format = "policies";
    policy_type = "delegations";
    action = as_delegation_policy_action (trim action);
  })
delegation_policy_groups env _ = none

unfoldable pub parse_delegation_policy_route :
    RouteEnv → String → Option (Parsed DelegationPolicyRouteContext)
unfolding delegation_policy_groups
parse_delegation_policy_route env pathname = elim (exec network_policy_delegation_route pathname) [
  | none ↦ none
  | some groups ↦ delegation_policy_groups env groups
]

unfoldable pub spaces_groups : RouteEnv → List String → Option (Parsed PlainRouteContext)
unfolding as_spaces_action
spaces_groups env (tenant ∷ jurisdiction ∷ sector ∷ action ∷ []) = some do
  check_scope env (trim tenant) (trim jurisdiction) (to_lower (trim sector))
  parsed (record {
    tenant_id = trim tenant;
    jurisdiction = trim jurisdiction;
    sector = to_lower (trim sector);
    section = "network";
    format = "spaces";
    action = as_spaces_action (trim action);
  })
spaces_groups env _ = none

unfoldable pub parse_spaces_route : RouteEnv → String → Option (Parsed PlainRouteContext)
unfolding spaces_groups
parse_spaces_route env pathname = elim (exec network_spaces_route pathname) [
  | none ↦ none
  | some groups ↦ spaces_groups env groups
]
