-- ===== src/Routes/Dcat.antt =====
-- src/api/path.ts: the routes of the DCAT catalogs.
use dataspace_ica_ts.Common.{String, Option, none, some, List, [], ◌∷◌, is_empty}
use dataspace_ica_ts.Text.{trim, to_lower}
use dataspace_ica_ts.Routes.Pattern.{exec}
use dataspace_ica_ts.Routes.Expressions.{
  dcat_catalog_request_route, dcat_catalog_dataset_route, dcat_catalog_ddo_request_route,
  dcat_catalog_ddo_dataset_route,
}
use dataspace_ica_ts.Routes.Contexts.{PlainRouteContext, DatasetRouteContext}
use dataspace_ica_ts.Routes.Scope.{RouteEnv, Parsed, parsed, ◌>>=◌, ◌>>◌, refuse_if, check_scope}

-- The route that `parseDcatRouteBase` returns.
pub record DcatRoute : Type 0 where
  pub tenant_id : String
  pub jurisdiction : String
  pub sector : String

unfoldable pub parse_dcat_route_base : RouteEnv → String → String → String → Parsed DcatRoute
parse_dcat_route_base env tenant jurisdiction sector = do
  check_scope env (trim tenant) (trim jurisdiction) (to_lower (trim sector))
  parsed (record {
    tenant_id = trim tenant;
    jurisdiction = trim jurisdiction;
    sector = to_lower (trim sector);
  })

unfoldable pub request_groups :
    String → String → RouteEnv → List String → Option (Parsed PlainRouteContext)
unfolding parse_dcat_route_base
request_groups format action env (tenant ∷ jurisdiction ∷ sector ∷ []) = some do
  route ← parse_dcat_route_base env tenant jurisdiction sector
  parsed (record {
    tenant_id = route.tenant_id;
    jurisdiction = route.jurisdiction;
    sector = route.sector;
    section = "dcat3";
    format = format;
    action = action;
  })
request_groups format action env _ = none

abbrev pub dataset_context : String → String → DcatRoute → String → DatasetRouteContext
dataset_context format action route dataset_id = record {
  tenant_id = route.tenant_id;
  jurisdiction = route.jurisdiction;
  sector = route.sector;
  section = "dcat3";
  format = format;
  action = action;
  dataset_id = dataset_id;
}

unfoldable pub dataset_groups :
    String → String → RouteEnv → List String → Option (Parsed DatasetRouteContext)
unfolding parse_dcat_route_base
dataset_groups format action env (tenant ∷ jurisdiction ∷ sector ∷ dataset ∷ []) = some do
  route ← parse_dcat_route_base env tenant jurisdiction sector
  refuse_if (is_empty (trim dataset)) "dataset id is required in path."
  parsed (dataset_context format action route (trim dataset))
dataset_groups format action env _ = none

unfoldable pub parse_dcat_catalog_request_route :
    RouteEnv → String → Option (Parsed PlainRouteContext)
unfolding request_groups
parse_dcat_catalog_request_route env pathname = elim (exec dcat_catalog_request_route pathname) [
  | none ↦ none
  | some groups ↦ request_groups "catalog" "request" env groups
]

unfoldable pub parse_dcat_catalog_dataset_route :
    RouteEnv → String → Option (Parsed DatasetRouteContext)
unfolding dataset_groups
parse_dcat_catalog_dataset_route env pathname = elim (exec dcat_catalog_dataset_route pathname) [
  | none ↦ none
  | some groups ↦ dataset_groups "catalog" "dataset" env groups
]

unfoldable pub parse_dcat_catalog_ddo_request_route :
    RouteEnv → String → Option (Parsed PlainRouteContext)
unfolding request_groups
parse_dcat_catalog_ddo_request_route env pathname =
    elim (exec dcat_catalog_ddo_request_route pathname) [
      | none ↦ none
      | some groups ↦ request_groups "catalog-ddo" "ddo-request" env groups
    ]

unfoldable pub parse_dcat_catalog_ddo_dataset_route :
    RouteEnv → String → Option (Parsed DatasetRouteContext)
unfolding dataset_groups
parse_dcat_catalog_ddo_dataset_route env pathname =
    elim (exec dcat_catalog_ddo_dataset_route pathname) [
      | none ↦ none
      | some groups ↦ dataset_groups "catalog-ddo" "ddo-dataset" env groups
    ]
