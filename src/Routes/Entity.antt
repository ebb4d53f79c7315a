-- ===== src/Routes/Entity.antt =====
-- src/api/path.ts: the routes of an entity's keys and of its DID document.
use dataspace_ica_ts.Common.{
  String, not, ◌&&◌, Option, none, some, List, [], ◌∷◌, ◌==◌, if◌then◌else◌,
}
use dataspace_ica_ts.Text.{trim, to_lower}
use dataspace_ica_ts.Paths.{location}
use dataspace_ica_ts.Routes.Pattern.{exec}
use dataspace_ica_ts.Routes.Expressions.{entity_keys_route, entity_did_document_route}
use dataspace_ica_ts.Jobs.Activation.{ActivateRouteContext}
use dataspace_ica_ts.Routes.Contexts.{EntityRouteContext}
use dataspace_ica_ts.Routes.Scope.{RouteEnv, Parsed, parsed, rejected, ◌>>◌, check_scope}

unfoldable pub as_activate_action : String → String
as_activate_action raw =
    if to_lower raw == "_activate-response" then "_activate-response" else "_activate"

unfoldable pub as_rotate_action : String → String
as_rotate_action raw = if to_lower raw == "_rotate-response" then "_rotate-response" else "_rotate"

unfoldable pub as_create_did_document_action : String → String
as_create_did_document_action raw =
    if to_lower raw == "_create-response" then "_create-response" else "_create"

-- The route that `parseEntityKeysRoute` returns.
pub record EntityKeysRoute : Type 0 where
  pub tenant_id : String
  pub jurisdiction : String
  pub sector : String
  pub resource_type : String
  pub action : String

unfoldable pub entity_keys_groups : RouteEnv → List String → Option (Parsed EntityKeysRoute)
entity_keys_groups env (tenant ∷ jurisdiction ∷ sector ∷ resource_type ∷ action ∷ []) = some do
  check_scope env (trim tenant) (trim jurisdiction) (to_lower (trim sector))
  parsed (record {
    tenant_id = trim tenant;
    jurisdiction = trim jurisdiction;
    sector = to_lower (trim sector);
    resource_type = to_lower (trim resource_type);
    action = to_lower (trim action);
  })
entity_keys_groups env _ = none

unfoldable pub parse_entity_keys_route : RouteEnv → String → Option (Parsed EntityKeysRoute)
unfolding entity_keys_groups
parse_entity_keys_route env pathname = elim (exec entity_keys_route pathname) [
  | none ↦ none
  | some groups ↦ entity_keys_groups env groups
]

-- The routes of another action are left to another parser.
unfoldable pub activate_of : EntityKeysRoute → Option (Parsed ActivateRouteContext)
unfolding as_activate_action
activate_of route =
    if not (route.action == "_activate") && not (route.action == "_activate-response")
    then none
    else if not (route.resource_type == "credentials")
    then some (rejected 400 "Only /entity/keys/credentials supports _activate actions.")
    else some (
        parsed (record {
          tenant_id = route.tenant_id;
          jurisdiction = route.jurisdiction;
          sector = route.sector;
          section = "entity";
          format = "keys";
          resource_type = "credentials";
          action = as_activate_action route.action;
        }))

unfoldable pub parse_activate_route : RouteEnv → String → Option (Parsed ActivateRouteContext)
unfolding parse_entity_keys_route activate_of
parse_activate_route env pathname = elim (parse_entity_keys_route env pathname) [
  | none ↦ none
  | some (rejected status message) ↦ some (rejected status message)
  | some (parsed route) ↦ activate_of route
]

unfoldable pub rotate_of : EntityKeysRoute → Option (Parsed EntityRouteContext)
unfolding as_rotate_action
rotate_of route =
    if not (route.action == "_rotate") && not (route.action == "_rotate-response")
    then none
    else some (
        parsed (record {
          tenant_id = route.tenant_id;
          jurisdiction = route.jurisdiction;
          sector = route.sector;
          section = "entity";
          format = "keys";
          resource_type = route.resource_type;
          action = as_rotate_action route.action;
        }))

unfoldable pub parse_rotate_route : RouteEnv → String → Option (Parsed EntityRouteContext)
unfolding parse_entity_keys_route rotate_of
parse_rotate_route env pathname = elim (parse_entity_keys_route env pathname) [
  | none ↦ none
  | some (rejected status message) ↦ some (rejected status message)
  | some (parsed route) ↦ rotate_of route
]

-- `buildRotateResponseLocation`
unfoldable pub rotate_response_location : EntityRouteContext → String
unfolding location
rotate_response_location context =
    location context.tenant_id context.jurisdiction context.sector
      ("/entity/keys/" ∷ context.resource_type ∷ "/_rotate-response" ∷ [])

unfoldable pub did_document_groups : RouteEnv → List String → Option (Parsed EntityRouteContext)
unfolding as_create_did_document_action
did_document_groups env (tenant ∷ jurisdiction ∷ sector ∷ action ∷ []) = some do
  check_scope env (trim tenant) (trim jurisdiction) (to_lower (trim sector))
  parsed (record {
    tenant_id = trim tenant;
    jurisdiction = trim jurisdiction;
    sector = to_lower (trim sector);
    section = "entity";
    format = "did";
    resource_type = "document";
    action = as_create_did_document_action (trim action);
  })
did_document_groups env _ = none

unfoldable pub parse_create_did_document_route :
    RouteEnv → String → Option (Parsed EntityRouteContext)
unfolding did_document_groups
parse_create_did_document_route env pathname = elim (exec entity_did_document_route pathname) [
  | none ↦ none
  | some groups ↦ did_document_groups env groups
]
