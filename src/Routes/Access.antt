-- ===== src/Routes/Access.antt =====
-- src/api/path.ts: the routes by which a client gets access: the exchange for a
-- controller, the provisioning of API keys and the identity service.
use dataspace_ica_ts.Common.{String, Option, none, some, List, [], ◌∷◌, ◌==◌, if◌then◌else◌}
use dataspace_ica_ts.Text.{trim, to_lower}
use dataspace_ica_ts.Routes.Pattern.{exec}
use dataspace_ica_ts.Routes.Expressions.{
  controller_exchange_route, api_key_provisioning_route, identity_auth_route,
}
use dataspace_ica_ts.Routes.Contexts.{PlainRouteContext}
use dataspace_ica_ts.Routes.Scope.{RouteEnv, Parsed, parsed, rejected, ◌>>◌, check_scope}

unfoldable pub as_controller_exchange_action : String → String
as_controller_exchange_action raw =
    if to_lower raw == "_exchange-response" then "_exchange-response" else "_exchange"

unfoldable pub as_api_key_provisioning_action : String → String
as_api_key_provisioning_action raw =
    let normalized = to_lower raw in
    if normalized == "_create-response"
    then "_create-response"
    else if normalized == "_disable"
    then "_disable"
    else if normalized == "_disable-response"
    then "_disable-response"
    else if normalized == "_remove"
    then "_remove"
    else if normalized == "_remove-response"
    then "_remove-response"
    else if normalized == "_search"
    then "_search"
    else if normalized == "_search-response"
    then "_search-response"
    else "_create"

unfoldable pub as_identity_auth_action : String → String
as_identity_auth_action raw =
    let normalized = to_lower raw in
    if normalized == "_dcr-response"
    then "_dcr-response"
    else if normalized == "_code"
    then "_code"
    else if normalized == "_code-response"
    then "_code-response"
    else if normalized == "_token"
    then "_token"
    else if normalized == "_token-response"
    then "_token-response"
    else if normalized == "_exchange"
    then "_exchange"
    else if normalized == "_exchange-response"
    then "_exchange-response"
    else "_dcr"

-- The route that `parseAuthRouteBase` returns.
pub record AuthRoute : Type 0 where
  pub tenant_id : String
  pub jurisdiction : String
  pub sector : String
  pub action : String

-- The groups are those of the three expressions.
unfoldable pub parse_auth_route_base : RouteEnv → List String → Option (Parsed AuthRoute)
parse_auth_route_base env (tenant ∷ jurisdiction ∷ sector ∷ action ∷ []) = some do
  check_scope env (trim tenant) (trim jurisdiction) (to_lower (trim sector))
  parsed (record {
    tenant_id = trim tenant;
    jurisdiction = trim jurisdiction;
    sector = to_lower (trim sector);
    action = to_lower (trim action);
  })
parse_auth_route_base env _ = none

unfoldable pub auth_context : (String → String) → String → String → AuthRoute → PlainRouteContext
auth_context as_action section format route = record {
  tenant_id = route.tenant_id;
  jurisdiction = route.jurisdiction;
  sector = route.sector;
  section = section;
  format = format;
  action = as_action route.action;
}

unfoldable pub auth_groups :
    (String → String) → String → String → RouteEnv → List String → Option (Parsed PlainRouteContext)
unfolding parse_auth_route_base auth_context
auth_groups as_action section format env groups = elim (parse_auth_route_base env groups) [
  | none ↦ none
  | some (rejected status message) ↦ some (rejected status message)
  | some (parsed route) ↦ some (parsed (auth_context as_action section format route))
]

unfoldable pub parse_controller_exchange_route :
    RouteEnv → String → Option (Parsed PlainRouteContext)
unfolding auth_groups as_controller_exchange_action
parse_controller_exchange_route env pathname = elim (exec controller_exchange_route pathname) [
  | none ↦ none
  | some groups ↦
      auth_groups as_controller_exchange_action "organization" "dataspace-auth" env groups
]

unfoldable pub parse_api_key_provisioning_route :
    RouteEnv → String → Option (Parsed PlainRouteContext)
unfolding auth_groups as_api_key_provisioning_action
parse_api_key_provisioning_route env pathname = elim (exec api_key_provisioning_route pathname) [
  | none ↦ none
  | some groups ↦
      auth_groups as_api_key_provisioning_action "api-key" "org.schema.action" env groups
]

unfoldable pub parse_identity_auth_route : RouteEnv → String → Option (Parsed PlainRouteContext)
unfolding auth_groups as_identity_auth_action
parse_identity_auth_route env pathname = elim (exec identity_auth_route pathname) [
  | none ↦ none
  | some groups ↦ auth_groups as_identity_auth_action "identity" "auth" env groups
]
