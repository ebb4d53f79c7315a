-- ===== src/Poll/Tests.antt =====
-- Polls of the revocation manager of src/api/managers/credential-revoke-response-manager.ts.
use dataspace_ica_ts.Common.{
  ◌≡◌, ◌≢◌, refl, true, false, none, some, [], ◌∷◌, is_some, arith, Option-cases, inl, inr,
}
use dataspace_ica_ts.Text.{to_lower}
use dataspace_ica_ts.Dict.{Dict, get, put, drop_if}
use Prim.Native.String
use dataspace_ica_ts.Paths.{to_submit_action}
use dataspace_ica_ts.Poll.Backend.{BackendAuthRoute, identity, spread, backend_auth_manager}
use dataspace_ica_ts.Poll.Actions.{poll-response_route}
use dataspace_ica_ts.Json.{Json, str, object}
use dataspace_ica_ts.Didcomm.{Settings, Request, bundle_message}
use dataspace_ica_ts.Jobs.{
  Job, JobStore, succeeded, new_store, enqueue, mark_running, mark_succeeded, is_expired, fetch,
}
use dataspace_ica_ts.Jobs.Laws.{IsValid, new_store-IsValid, apply-IsValid, apply, enqueue_op}
use dataspace_ica_ts.Poll.{error, succeeded_with, poll}
use dataspace_ica_ts.Poll.Credentials.{CredentialRoute, Counted, revoke_manager}
use dataspace_ica_ts.Poll.Laws.{
  IsDisclosed, IsError, poll-IsDisclosed, poll-mark_succeeded, poll-ne-500,
}

abbrev env : Settings
env = record {
  audience_did = "";
  local_tenant_id = "acme";
  external_domain = "";
  url_host = λ url. none;
  encode = λ text. text;
}

abbrev request : Request
request = record { issuer_did = "did:web:ica.example"; search_params = none; uuid = λ n. "uuid" }

abbrev route : CredentialRoute
route = record {
  tenant_id = "acme";
  jurisdiction = "ES";
  sector = "health-care";
  credential_type = "Member";
}

abbrev submitted : JobStore CredentialRoute Counted
submitted = enqueue 1 "t" route (new_store 3600)

submitted-IsValid : IsValid submitted
submitted-IsValid =
    unfold apply in apply-IsValid (enqueue_op 1 "t" route) (new_store 3600) (new_store-IsValid 3600)

submitted-IsAnswered :
    ¬ IsError revoke_manager env request (poll revoke_manager env request 2 route "t" submitted).1
unfolding poll revoke_manager enqueue new_store fetch get put drop_if is_expired to_lower
submitted-IsAnswered h = h

poll-IsDisclosed_example :
    (job : Job CredentialRoute Counted) × (get "t" submitted.jobs ≡ some job)
    × (revoke_manager.same_route job.route route ≡ true)
    × (is_expired 2 submitted.terminal_ttl_ms job ≡ false)
    × IsDisclosed revoke_manager env request route "t" job
        (poll revoke_manager env request 2 route "t" submitted).1
poll-IsDisclosed_example =
    poll-IsDisclosed revoke_manager env request 2 route "t" submitted submitted-IsValid
      submitted-IsAnswered

abbrev revoked : Counted
revoked = record { count = 1; items = str "credential-1" ∷ [] }

abbrev revoked_job : Job CredentialRoute Counted
revoked_job = record {
  thid = "t";
  route = route;
  status = succeeded;
  created_at = 1;
  updated_at = 3;
  result = some revoked;
  error = none;
}

revoked_payload :
    (payload : Json) × (revoke_manager.succeeded_payload env request route "t" revoked_job
      ≡ some payload)
unfolding revoke_manager
revoked_payload = (_, refl)

poll-mark_succeeded_example :
    (poll revoke_manager env request 2000 route "t"
      (mark_succeeded 3 "t" revoked (mark_running 2 "t" (enqueue 1 "t" route (new_store 3600))))).1
    ≡ succeeded_with revoked_payload.0
unfolding new_store to_lower
poll-mark_succeeded_example =
    poll-mark_succeeded revoke_manager env request 1 2 3 2000 "t" route route revoked
      revoked_payload.0 (new_store 3600) (new_store-IsValid 3600) refl
      (unfold revoke_manager in refl) revoked_payload.1

revoke_total :
    (job : Job CredentialRoute Counted)
    → is_some job.result ≡ true
    → is_some (revoke_manager.succeeded_payload env request route "t" job) ≡ true
unfolding revoke_manager
revoke_total job h = elim (Option-cases job.result) [
  | inl e ↦ absurd (ground arith)
  | inr (result, e) ↦ rw e refl
]

poll-ne-500_example :
    (poll revoke_manager env request 2 route "t" submitted).1 ≢ error 500 "no result"
poll-ne-500_example =
    poll-ne-500 revoke_manager env request 2 route "t" "no result" submitted revoke_total
      submitted-IsValid

abbrev exchange : BackendAuthRoute
exchange = record {
  tenant_id = "acme";
  jurisdiction = "ES";
  sector = "health-care";
  section = identity;
  action = "_exchange";
}

abbrev access : Dict Json
access = ("status", str "ok") ∷ ("access_token", str "e30.e30.Bw") ∷ []

poll-response_route_example :
    (poll backend_auth_manager env request 2000
      (record exchange { action = String.◌++◌ "_exchange" "-response" })
      "t"
      (mark_succeeded 3 "t" access
        (mark_running 2 "t" (enqueue 1 "t" exchange (new_store 3600))))).1
    ≡ succeeded_with
        (bundle_message env request "acme" "t" (object (spread (("status", str "ok") ∷ []) access)))
unfolding new_store
poll-response_route_example =
    poll-response_route env request 1 2 3 2000 "t" exchange access (new_store 3600)
      (new_store-IsValid 3600) refl (unfold to_submit_action in refl)
