-- ===== src/Poll/Backend.antt =====
-- src/api/managers/backend-auth-response-manager.ts: polls of the sign-in jobs, whose submissions and
-- polls come on routes with actions `_x` and `_x-response`. A result is the list of its properties.
use dataspace_ica_ts.Common.{String, Bool, true, false, ◌&&◌, none, some, List, [], ◌∷◌, ◌==◌}
use dataspace_ica_ts.Text.{to_lower, join}
use dataspace_ica_ts.Dict.{Dict, put}
use dataspace_ica_ts.Json.{Json, str, object}
use dataspace_ica_ts.Didcomm.{Settings, bundle_message}
use dataspace_ica_ts.Paths.{
  to_submit_action, controller_exchange_response_location, api_key_response_location,
  identity_auth_response_location,
}
use dataspace_ica_ts.Poll.{Manager}
use dataspace_ica_ts.Poll.Bodies.{or_text}

pub data Section : Type 0 where
  organization api_key identity : Section

pub record BackendAuthRoute : Type 0 where
  pub tenant_id : String
  pub jurisdiction : String
  pub sector : String
  pub section : Section
  pub action : String

unfoldable pub same_section : Section → Section → Bool
same_section organization organization = true
same_section api_key api_key = true
same_section identity identity = true
same_section _ _ = false

unfoldable pub same_backend_route : BackendAuthRoute → BackendAuthRoute → Bool
unfolding same_section
same_backend_route a b =
    a.tenant_id == b.tenant_id
    && to_lower a.jurisdiction == to_lower b.jurisdiction
    && a.sector == b.sector
    && same_section a.section b.section
    && to_submit_action a.action == to_submit_action b.action

location_in : Section → Settings → BackendAuthRoute → List (String × String) → String
location_in organization env r params =
    controller_exchange_response_location r.tenant_id r.jurisdiction r.sector env.encode params
location_in api_key env r params =
    api_key_response_location r.tenant_id r.jurisdiction r.sector env.encode r.action params
location_in identity env r params =
    identity_auth_response_location r.tenant_id r.jurisdiction r.sector env.encode r.action params

unfoldable pub backend_auth_location : Settings → BackendAuthRoute → String → String
unfolding location_in
backend_auth_location env route thid = location_in route.section env route (("thid", thid) ∷ [])

-- `{ ...first, ...second }`: a property of `second` replaces the one of `first` in its place.
unfoldable pub spread : Dict Json → Dict Json → Dict Json
spread first [] = first
spread first ((k, v) ∷ second) = spread (put k v first) second

unfoldable pub backend_auth_manager : Manager BackendAuthRoute (Dict Json)
unfolding same_backend_route backend_auth_location spread bundle_message to_submit_action
backend_auth_manager = record {
  same_route = same_backend_route;
  missing_thid = λ route. join "" ("Missing thid for " ∷ route.action ∷ " polling." ∷ []);
  job_not_found = λ thid. join "" ("Backend auth job not found for thid=" ∷ thid ∷ "." ∷ []);
  foreign_route = λ thid own asked. "Job exists but does not belong to this route.";
  location = backend_auth_location;
  retry_after = 2;
  failed_payload = λ env req route thid job. bundle_message env req route.tenant_id thid (
      object (
        ("status", str "failed")
        ∷ ("action", str (to_submit_action route.action))
        ∷ ("error", str (or_text job.error "Unknown backend auth failure."))
        ∷ []));
  no_result =
      λ thid. join "" ("Backend auth job " ∷ thid ∷ " finished without result payload." ∷ []);
  succeeded_payload = λ env req route thid job. elim job.result [
    | none ↦ none
    | some result ↦ some (
        bundle_message env req route.tenant_id thid
          (object (spread (("status", str "ok") ∷ []) result)))
  ];
}
