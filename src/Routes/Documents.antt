-- ===== src/Routes/Documents.antt =====
-- src/api/path.ts: the routes of signed documents, `parseVerifyRoute` and `parseTermsRemoveRoute`,
-- and the location of a verification's response.
use dataspace_ica_ts.Common.{String, Option, none, some, List, [], ◌∷◌, ◌==◌, if◌then◌else◌}
use dataspace_ica_ts.Text.{trim, to_lower}
use dataspace_ica_ts.Config.Network.{NetworkKind, parse_network_kind, network_name}
use dataspace_ica_ts.Paths.{location, with_query}
use dataspace_ica_ts.Routes.Pattern.{exec}
use dataspace_ica_ts.Routes.Expressions.{verify_route, terms_remove_route}
use dataspace_ica_ts.Routes.Contexts.{DocumentRouteContext}
use dataspace_ica_ts.Routes.Scope.{RouteEnv, Parsed, parsed, rejected, ◌>>=◌, ◌>>◌, check_scope}
use dataspace_ica_ts.Routes.Resource.{parse_resource_type, check_active}

unfoldable pub as_verify_action : String → String
as_verify_action raw = if to_lower raw == "_verify-response" then "_verify-response" else "_verify"

unfoldable pub as_terms_remove_action : String → String
as_terms_remove_action raw =
    if to_lower raw == "_remove-response" then "_remove-response" else "_remove"

abbrev pub require_network_kind : String → Parsed NetworkKind
require_network_kind raw = elim (parse_network_kind raw) [
  | none ↦ rejected 400 "Invalid networkKind."
  | some kind ↦ parsed kind
]

-- The groups of `VERIFY_ROUTE_REGEX`.
unfoldable pub verify_groups : RouteEnv → List String → Option (Parsed DocumentRouteContext)
unfolding as_verify_action
verify_groups env (tenant ∷ jurisdiction ∷ sector ∷ kind ∷ resource_type ∷ action ∷ []) = some do
  section ← require_network_kind kind
  check_scope env (trim tenant) (trim jurisdiction) (to_lower (trim sector))
  normalized ← parse_resource_type env (trim resource_type)
  check_active env normalized
  parsed (record {
    tenant_id = trim tenant;
    jurisdiction = trim jurisdiction;
    sector = to_lower (trim sector);
    section = section;
    format = "pdf";
    resource_type = normalized;
    action = as_verify_action (trim action);
  })
verify_groups env _ = none

unfoldable pub parse_verify_route : RouteEnv → String → Option (Parsed DocumentRouteContext)
unfolding verify_groups
parse_verify_route env pathname = elim (exec verify_route pathname) [
  | none ↦ none
  | some groups ↦ verify_groups env groups
]

-- The groups of `TERMS_REMOVE_ROUTE_REGEX`. A version that is not active can be removed.
unfoldable pub terms_remove_groups : RouteEnv → List String → Option (Parsed DocumentRouteContext)
unfolding as_terms_remove_action
terms_remove_groups env (tenant ∷ jurisdiction ∷ sector ∷ kind ∷ resource_type ∷ action ∷ []) =
    some do
      section ← require_network_kind kind
      check_scope env (trim tenant) (trim jurisdiction) (to_lower (trim sector))
      normalized ← parse_resource_type env (trim resource_type)
      parsed (record {
        tenant_id = trim tenant;
        jurisdiction = trim jurisdiction;
        sector = to_lower (trim sector);
        section = section;
        format = "pdf";
        resource_type = normalized;
        action = as_terms_remove_action (trim action);
      })
terms_remove_groups env _ = none

unfoldable pub parse_terms_remove_route : RouteEnv → String → Option (Parsed DocumentRouteContext)
unfolding terms_remove_groups
parse_terms_remove_route env pathname = elim (exec terms_remove_route pathname) [
  | none ↦ none
  | some groups ↦ terms_remove_groups env groups
]

-- `buildVerifyResponseLocation`
unfoldable pub verify_response_location :
    (String → String) → DocumentRouteContext → List (String × String) → String
unfolding location with_query
verify_response_location encode context params =
    with_query encode
      (location context.tenant_id context.jurisdiction context.sector (
        "/"
        ∷ network_name context.section
        ∷ "/pdf/"
        ∷ context.resource_type
        ∷ "/_verify-response"
        ∷ []))
      params
