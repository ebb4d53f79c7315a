-- ===== src/Spaces/Tests.antt =====
-- Runs of src/api/tools/spaces-registry.ts.
use dataspace_ica_ts.Common.{
  String, ◌≡◌, refl, not, ◌&&◌, List, [], ◌∷◌, map, ◌==◌, is_empty, is_nil, if◌then◌else◌,
}
use dataspace_ica_ts.Text.{to_lower, to_upper}
use dataspace_ica_ts.Spaces.{
  DataspaceScope, Target, dedupe_targets, SpacesRegistry, new_registry, resolve_for_sync, replace,
  to_public_target,
}
use dataspace_ica_ts.Spaces.Laws.{
  has_did, IsDistinctDids, resolve_for_sync-replace, dedupe_targets-IsDistinctDids,
}

abbrev target_of : String → String → Target
target_of did name = record { name = name; did = did; endpoint_url = ""; api_key = "" }

abbrev targets : List Target
targets = target_of "did:web:a" "" ∷ target_of " DID:web:A" "Space A" ∷ target_of "" "blank" ∷ []

abbrev lower : DataspaceScope
lower = record { tenant_id = "acme"; jurisdiction = "es"; sector = "health-care" }

abbrev upper : DataspaceScope
upper = record { tenant_id = "ACME"; jurisdiction = "ES"; sector = "Health-Care" }

abbrev registry : SpacesRegistry
registry = new_registry (target_of "did:web:root" "" ∷ []) ""

resolve_for_sync-replace_example :
    let now =
      if is_nil (dedupe_targets targets)
      then registry.default_targets
      else dedupe_targets targets in
    (resolve_for_sync upper (replace lower targets registry).0 ≡ (
      if to_lower lower.tenant_id == to_lower upper.tenant_id
        && to_upper lower.jurisdiction == to_upper upper.jurisdiction
        && to_lower lower.sector == to_lower upper.sector
      then now
      else resolve_for_sync upper registry))
    × ((replace lower targets registry).1 ≡ map to_public_target now)
resolve_for_sync-replace_example = resolve_for_sync-replace lower upper targets registry refl refl

dedupe_targets-IsDistinctDids_example :
    IsDistinctDids (dedupe_targets targets)
    × (has_did "did:web:a" (dedupe_targets targets)
        ≡ (not (is_empty "did:web:a") && has_did "did:web:a" targets))
dedupe_targets-IsDistinctDids_example = dedupe_targets-IsDistinctDids targets "did:web:a"
