-- ===== src/Spaces.antt =====
-- src/api/tools/spaces-registry.ts, and `dedupeTargets` of src/api/tools/dataspace-sync.ts: the data
-- spaces to which the credentials of a scope are published. A text of a target that is absent is
-- empty: the code tests both alike.
pub mod Keys
pub mod Laws
pub mod Tests
use dataspace_ica_ts.Common.{
  String, Bool, Option, none, some, List, [], ◌∷◌, map, ◌|||◌, is_empty, is_nil, if◌then◌else◌,
}
use dataspace_ica_ts.Text.{trim, to_lower, to_upper, join}
use dataspace_ica_ts.Dict.{Dict, get, put, values}

pub record DataspaceScope : Type 0 where
  pub tenant_id : String
  pub jurisdiction : String
  pub sector : String

pub record Target : Type 0 where
  pub name : String
  pub did : String
  pub endpoint_url : String
  pub api_key : String

unfoldable pub normalize_did : String → String
normalize_did value = to_lower (trim value)

-- What a target adds to an earlier one with the same DID.
unfoldable pub merge_target : Target → Target → Target
merge_target previous target = record {
  name = target.name ||| previous.name;
  did = previous.did;
  endpoint_url = target.endpoint_url ||| previous.endpoint_url;
  api_key = target.api_key ||| previous.api_key;
}

unfoldable pub add_target : Target → Dict Target → Dict Target
add_target target by_did =
    let key = normalize_did target.did in
    let kept : Target = elim (get key by_did) [
      | none ↦ target
      | some previous ↦ merge_target previous target
    ] in
    if is_empty key then by_did else put key kept by_did

-- The loop over the targets.
unfoldable pub add_targets : List Target → Dict Target → Dict Target
add_targets [] by_did = by_did
add_targets (target ∷ targets) by_did = add_targets targets (add_target target by_did)

unfoldable pub dedupe_targets : List Target → List Target
dedupe_targets targets = values (add_targets targets [])

pub record PublicTarget : Type 0 where
  pub name : String
  pub identifier : String
  pub url : String

unfoldable pub to_public_target : Target → PublicTarget
to_public_target target = record {
  name = target.name;
  identifier = target.did;
  url = target.endpoint_url;
}

pub record SpacesRegistry : Type 0 where
  pub by_scope : Dict (List Target)
  pub default_targets : List Target
  pub root_ca_did : String

unfoldable pub new_registry : List Target → String → SpacesRegistry
new_registry default_targets root_ca_did = record {
  by_scope = [];
  default_targets = dedupe_targets default_targets;
  root_ca_did = trim root_ca_did;
}

unfoldable pub scope_key : DataspaceScope → String
scope_key scope = join "" (
    to_lower scope.tenant_id ∷ "|" ∷ to_upper scope.jurisdiction ∷ "|" ∷ to_lower scope.sector ∷ [])

unfoldable pub resolve_source : DataspaceScope → SpacesRegistry → List Target
resolve_source scope r = elim (get (scope_key scope) r.by_scope) [
  | none ↦ r.default_targets
  | some scoped ↦ if is_nil scoped then r.default_targets else scoped
]

-- `list`
unfoldable pub list_targets : DataspaceScope → SpacesRegistry → List PublicTarget
list_targets scope r = map to_public_target (resolve_source scope r)

unfoldable pub resolve_for_sync : DataspaceScope → SpacesRegistry → List Target
resolve_for_sync scope r = resolve_source scope r

-- `replace`
unfoldable pub replace :
    DataspaceScope → List Target → SpacesRegistry → SpacesRegistry × List PublicTarget
replace scope targets r =
    let r' : SpacesRegistry = record r {
      by_scope = put (scope_key scope) (dedupe_targets targets) r.by_scope;
    } in
    (r', list_targets scope r')
