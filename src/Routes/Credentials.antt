-- ===== src/Routes/Credentials.antt =====
-- src/api/path.ts: the routes of credentials. The five parsers have one body, at their expression and
-- at the folding of their action.
use dataspace_ica_ts.Common.{
  String, Option, none, some, List, [], ◌∷◌, ◌==◌, if◌then◌else◌, is_empty,
}
use dataspace_ica_ts.Text.{trim, to_lower}
use dataspace_ica_ts.Routes.Pattern.{Segment, exec}
use dataspace_ica_ts.Routes.Expressions.{
  network_credential_route, network_credential_status_route, network_credential_revoke_route,
  network_credential_search_route, network_credential_retrieve_route,
}
use dataspace_ica_ts.Routes.Contexts.{CredentialRouteContext}
use dataspace_ica_ts.Routes.Scope.{RouteEnv, Parsed, parsed, ◌>>◌, refuse_if, check_scope}

unfoldable pub as_issue_credential_action : String → String
as_issue_credential_action raw =
    if to_lower raw == "_issue-response" then "_issue-response" else "_issue"

unfoldable pub as_credential_status_action : String → String
as_credential_status_action raw =
    if to_lower raw == "_status-response" then "_status-response" else "_status"

unfoldable pub as_credential_revoke_action : String → String
as_credential_revoke_action raw =
    if to_lower raw == "_revoke-response" then "_revoke-response" else "_revoke"

unfoldable pub as_credential_search_action : String → String
as_credential_search_action raw =
    if to_lower raw == "_search-response" then "_search-response" else "_search"

unfoldable pub as_credential_retrieve_action : String → String
as_credential_retrieve_action raw =
    if to_lower raw == "_retrieve-response" then "_retrieve-response" else "_retrieve"

unfoldable pub credential_groups :
    (String → String) → RouteEnv → List String → Option (Parsed CredentialRouteContext)
credential_groups as_action env (tenant ∷ jurisdiction ∷ sector ∷ credential_type ∷ action ∷ []) =
    some do
      check_scope env (trim tenant) (trim jurisdiction) (to_lower (trim sector))
      refuse_if (is_empty (trim credential_type)) "credentialType is required in path."
      parsed (record {
        tenant_id = trim tenant;
        jurisdiction = trim jurisdiction;
        sector = to_lower (trim sector);
        section = "network";
        format = "credentials";
        credential_type = trim credential_type;
        action = as_action (trim action);
      })
credential_groups as_action env _ = none

unfoldable pub parse_credential_route :
    List Segment → (String → String) → RouteEnv → String → Option (Parsed CredentialRouteContext)
unfolding credential_groups
parse_credential_route expression as_action env pathname = elim (exec expression pathname) [
  | none ↦ none
  | some groups ↦ credential_groups as_action env groups
]

unfoldable pub parse_issue_credential_route :
    RouteEnv → String → Option (Parsed CredentialRouteContext)
unfolding parse_credential_route as_issue_credential_action
parse_issue_credential_route env pathname =
    parse_credential_route network_credential_route as_issue_credential_action env pathname

unfoldable pub parse_credential_status_route :
    RouteEnv → String → Option (Parsed CredentialRouteContext)
unfolding parse_credential_route as_credential_status_action
parse_credential_status_route env pathname =
    parse_credential_route network_credential_status_route as_credential_status_action env pathname

unfoldable pub parse_credential_revoke_route :
    RouteEnv → String → Option (Parsed CredentialRouteContext)
unfolding parse_credential_route as_credential_revoke_action
parse_credential_revoke_route env pathname =
    parse_credential_route network_credential_revoke_route as_credential_revoke_action env pathname

unfoldable pub parse_credential_search_route :
    RouteEnv → String → Option (Parsed CredentialRouteContext)
unfolding parse_credential_route as_credential_search_action
parse_credential_search_route env pathname =
    parse_credential_route network_credential_search_route as_credential_search_action env pathname

unfoldable pub parse_credential_retrieve_route :
    RouteEnv → String → Option (Parsed CredentialRouteContext)
unfolding parse_credential_route as_credential_retrieve_action
parse_credential_retrieve_route env pathname =
    parse_credential_route network_credential_retrieve_route as_credential_retrieve_action env
      pathname
