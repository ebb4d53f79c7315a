-- ===== src/Poll/Actions.antt =====
-- A sign-in job that was submitted on `_x` is read on `_x-response`, in
-- src/api/managers/backend-auth-response-manager.ts.
use Prim.Native.String
use Prim.Native.String.{[], ◌∷◌}
use text.Mathlib.TextLemmas.{nil-append, cons-append, append_cancel_right}
use dataspace_ica_ts.Common.{
  ℕ, ◌-◌, ltb, is_empty, [], ◌∷◌, String, ◌≡◌, refl, sym, ◌∙◌, true, false, ◌==◌, eq_refl,
  ne→==_false, if◌then◌else◌,
}
use dataspace_ica_ts.Text.{to_lower}
use dataspace_ica_ts.Paths.{to_submit_action}
use dataspace_ica_ts.Dict.{Dict}
use dataspace_ica_ts.Json.{Json, str, object}
use dataspace_ica_ts.Didcomm.{Settings, Request, bundle_message}
use dataspace_ica_ts.Jobs.{JobStore, enqueue, mark_running, mark_succeeded}
use dataspace_ica_ts.Jobs.Laws.{IsValid}
use dataspace_ica_ts.Poll.{error, succeeded_with, poll}
use dataspace_ica_ts.Poll.Laws.{poll-mark_succeeded}
use dataspace_ica_ts.Poll.Backend.{
  spread, backend_auth_manager, Section, organization, api_key, identity, BackendAuthRoute,
  same_section, same_backend_route,
}

longer : (s t : String) → String.◌++◌ s t ≡ t → s ≡ ""
longer s t e = append_cancel_right s "" t (e ∙ sym (nil-append t))

-- Taking the ending off gives back the action that it was added to.
pub to_submit_action-append : (s : String) → to_submit_action (String.◌++◌ s "-response") ≡ s
unfolding to_submit_action
to_submit_action-append [] = refl
to_submit_action-append (c ∷ s) =
    rw (cons-append c s "-response", to_submit_action-append s, longer_false) refl
  where
    longer_false : (String.◌∷◌ c (String.◌++◌ s "-response") == "-response") ≡ false
    longer_false = ne→==_false _ _ (λ e.
        let blank : String.◌∷◌ c s ≡ "" =
          longer (c ∷ s) "-response" (cons-append c s "-response" ∙ e) in
        cc)

same_section_refl : (section : Section) → same_section section section ≡ true
unfolding same_section
same_section_refl organization = refl
same_section_refl api_key = refl
same_section_refl identity = refl

-- A route whose action does not end in `-response` is the same, for the poll of a job, as that route
-- with `-response` added to its action.
pub same_backend_route-append :
    (route : BackendAuthRoute)
    → to_submit_action route.action ≡ route.action
    → same_backend_route route (record route { action = String.◌++◌ route.action "-response" })
      ≡ true
unfolding same_backend_route
same_backend_route-append route submitted =
    rw
      (
        submitted,
        to_submit_action-append route.action,
        same_section_refl route.section,
        eq_refl route.tenant_id,
        eq_refl (to_lower route.jurisdiction),
        eq_refl route.sector,
        eq_refl route.action,
      )
      refl

-- A sign-in job that was submitted on a route whose action does not end in `-response`, by a
-- thread id that is not empty, and that succeeded, is read from a valid store with its result on
-- the route with `-response` added, until the time to live has passed since it succeeded; from
-- then on the answer is that there is no such job.
pub poll-response_route :
    (env : Settings) (req : Request) (t₁ t₂ t₃ now : ℕ) (thid : String) (route : BackendAuthRoute)
    (result : Dict Json) (s : JobStore BackendAuthRoute (Dict Json))
    → IsValid s
    → is_empty thid ≡ false
    → to_submit_action route.action ≡ route.action
    → (poll backend_auth_manager env req now
        (record route { action = String.◌++◌ route.action "-response" })
        thid
        (mark_succeeded t₃ thid result (mark_running t₂ thid (enqueue t₁ thid route s)))).1
      ≡ (if ltb s.terminal_ttl_ms (now - t₃)
          then error 404 (backend_auth_manager.job_not_found thid)
          else succeeded_with (
              bundle_message env req route.tenant_id thid
                (object (spread (("status", str "ok") ∷ []) result))))
poll-response_route env req t₁ t₂ t₃ now thid route result s v given submitted =
    poll-mark_succeeded backend_auth_manager env req t₁ t₂ t₃ now thid route
      (record route { action = String.◌++◌ route.action "-response" }) result _ s v given
      (unfold backend_auth_manager in same_backend_route-append route submitted)
      (unfold backend_auth_manager in refl)
