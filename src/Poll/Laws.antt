-- ===== src/Poll/Laws.antt =====
-- What a poller learns, and of which jobs.
use dataspace_ica_ts.Common.{
  ℕ, ◌-◌, String, ◌≡◌, ◌≢◌, ◌↔◌, refl, sym, ◌∙◌, Bool, true, false, Option, none, some, arith,
  eq_iff, is_some, ltb, is_empty, if◌then◌else◌, Bool-cases, inl, inr, Option-cases,
}
use dataspace_ica_ts.Text.{to_lower}
use dataspace_ica_ts.Dict.{get}
use dataspace_ica_ts.Dict.Laws.{unless}
use dataspace_ica_ts.Json.{Json}
use dataspace_ica_ts.Didcomm.{Settings, Request}
use dataspace_ica_ts.Jobs.{
  Job, JobStore, Status, queued, running, succeeded, failed, enqueue, mark_running, mark_succeeded,
  fetch, is_expired, is_open,
}
use dataspace_ica_ts.Jobs.Laws.{IsValid, fetch-eq-unless, fetch-mark_succeeded, unless-some}
use dataspace_ica_ts.Poll.{
  Manager, PollOutcome, error, pending, failed_with, succeeded_with, poll, poll_found, poll_job,
  poll_finished,
}
use dataspace_ica_ts.Poll.Credentials.{CredentialRoute, same_route}

unless_kept : {V : Type 0} (p : V → Bool) (o : Option V) (v : V) → unless p o ≡ some v → p v ≡ false
unless_kept p none v h = absurd (ground arith)
unless_kept p (some w) v h = ground arith

module _ {R A : Type 0} (m : Manager R A) (env : Settings) (req : Request) where
  -- What an outcome says of the job that it was made from; an error says nothing.
  abbrev pub IsDisclosed : R → String → Job R A → PollOutcome → Type 0
  IsDisclosed route thid job (error code message) = ⊥
  IsDisclosed route thid job (pending at retry) =
      (is_open job.status ≡ true) × (at ≡ m.location env route thid) × (retry ≡ m.retry_after)
  IsDisclosed route thid job (failed_with payload) =
      (job.status ≡ failed) × (payload ≡ m.failed_payload env req route thid job)
  IsDisclosed route thid job (succeeded_with payload) =
      (job.status ≡ succeeded) × (m.succeeded_payload env req route thid job ≡ some payload)

  abbrev pub IsError : PollOutcome → Type 0
  IsError (error code message) = Unit
  IsError _ = ⊥

  poll_job-IsDisclosed :
      (route : R) (thid : String) (job : Job R A) (st : Status)
      → job.status ≡ st
      → ¬ IsError (poll_job st m env req route thid job)
      → IsDisclosed route thid job (poll_job st m env req route thid job)
  unfolding poll_job is_open
  poll_job-IsDisclosed route thid job queued e h = (ground arith, refl, refl)
  poll_job-IsDisclosed route thid job running e h = (ground arith, refl, refl)
  poll_job-IsDisclosed route thid job failed e h = (e, refl)
  poll_job-IsDisclosed route thid job succeeded e h =
      elim (Option-cases (m.succeeded_payload env req route thid job)) [
        | inl missing ↦ absurd (h (rw (missing, poll_finished) tt))
        | inr (payload, made) ↦ rw (made, poll_finished) (e, made)
      ]

  poll_found-IsDisclosed :
      (route : R) (thid : String) (found : Option (Job R A))
      → ¬ IsError (poll_found m env req route thid found)
      → (job : Job R A) × (found ≡ some job)
        × (m.same_route job.route route ≡ true)
        × IsDisclosed route thid job (poll_found m env req route thid found)
  unfolding poll_found
  poll_found-IsDisclosed route thid none h = absurd (h tt)
  poll_found-IsDisclosed route thid (some job) h =
      elim (Bool-cases (m.same_route job.route route)) [
        | inl same ↦ (
          job,
          refl,
          same,
          rw same (poll_job-IsDisclosed route thid job job.status refl (rw same at h)),
        )
        | inr other ↦ absurd (h (rw other tt))
      ]

  -- A poll that does not answer with an error speaks of the job stored under the polled thread id, and
  -- that job was submitted on the same route, is not past its time to live, and is open where the
  -- answer is to come back, failed where it is the failure, and succeeded where it is the result.
  pub poll-IsDisclosed :
      (now : ℕ) (route : R) (thid : String) (s : JobStore R A)
      → IsValid s
      → ¬ IsError (poll m env req now route thid s).1
      → (job : Job R A) × (get thid s.jobs ≡ some job)
        × (m.same_route job.route route ≡ true)
        × (is_expired now s.terminal_ttl_ms job ≡ false)
        × IsDisclosed route thid job (poll m env req now route thid s).1
  unfolding poll
  poll-IsDisclosed now route thid s v h = elim (Bool-cases (is_empty thid)) [
    | inl blank ↦ absurd (h (rw blank tt))
    | inr given ↦
        let (job, found, same, told) =
          poll_found-IsDisclosed route thid (fetch now thid s).1 (rw given at h) in
        let left : unless (is_expired now s.terminal_ttl_ms) (get thid s.jobs) ≡ some job =
          sym (fetch-eq-unless now thid thid s v).1 ∙ found in
        (
          job,
          unless-some (is_expired now s.terminal_ttl_ms) _ job left,
          same,
          unless_kept (is_expired now s.terminal_ttl_ms) _ job left,
          rw given told,
        )
  ]

  -- A client that polls a job, in a valid store and by a thread id that is not empty, on a route
  -- that is the same as the one it submitted on, reads the result until the time to live has
  -- passed since the job succeeded, and from then on that there is no such job. The manager must
  -- make a payload of the result.
  pub poll-mark_succeeded :
      (t₁ t₂ t₃ now : ℕ) (thid : String) (own route : R) (a : A) (payload : Json) (s : JobStore R A)
      → IsValid s
      → is_empty thid ≡ false
      → m.same_route own route ≡ true
      → m.succeeded_payload env req route thid (record {
        thid = thid;
        route = own;
        status = succeeded;
        created_at = t₁;
        updated_at = t₃;
        result = some a;
        error = none;
      })
        ≡ some payload
      → (poll m env req now route thid
          (mark_succeeded t₃ thid a (mark_running t₂ thid (enqueue t₁ thid own s)))).1
        ≡ (if ltb s.terminal_ttl_ms (now - t₃)
            then error 404 (m.job_not_found thid)
            else succeeded_with payload)
  unfolding poll poll_found poll_job poll_finished
  poll-mark_succeeded t₁ t₂ t₃ now thid own route a payload s v given same made = rw given (
      rw (fetch-mark_succeeded t₁ t₂ t₃ now thid own a s v)
        (elim (Bool-cases (ltb s.terminal_ttl_ms (now - t₃))) [
          | inl late ↦ rw late refl
          | inr soon ↦ rw soon (rw same (rw (made, poll_finished) refl))
        ]))

  abbrev IsTotal : R → String → Type 0
  IsTotal route thid =
      (job : Job R A)
      → is_some job.result ≡ true
      → is_some (m.succeeded_payload env req route thid job) ≡ true

  poll_job-ne-500 :
      (route : R) (thid message : String) (job : Job R A) (st : Status)
      → IsTotal route thid
      → (st ≡ succeeded → is_some job.result ≡ true)
      → poll_job st m env req route thid job ≢ error 500 message
  unfolding poll_job poll_finished
  poll_job-ne-500 route thid message job queued total settled e = cc
  poll_job-ne-500 route thid message job running total settled e = cc
  poll_job-ne-500 route thid message job failed total settled e = cc
  poll_job-ne-500 route thid message job succeeded total settled e =
      absurd (ground (arith, total job (settled refl)))

  poll_found-ne-500 :
      (route : R) (thid message : String) (found : Option (Job R A))
      → IsTotal route thid
      → ((job : Job R A) → found ≡ some job → job.status ≡ succeeded → is_some job.result ≡ true)
      → poll_found m env req route thid found ≢ error 500 message
  unfolding poll_found
  poll_found-ne-500 route thid message none total settled e = absurd (ground arith)
  poll_found-ne-500 route thid message (some job) total settled e =
      absurd
        (ground (arith, poll_job-ne-500 route thid message job job.status total (settled job refl)))

  -- Where the manager makes a payload of every job that has a result, no poll of a valid store ends
  -- in the error 500 of a job that is finished without a result.
  pub poll-ne-500 :
      (now : ℕ) (route : R) (thid message : String) (s : JobStore R A)
      → ((job : Job R A)
          → is_some job.result ≡ true
          → is_some (m.succeeded_payload env req route thid job) ≡ true)
      → IsValid s
      → (poll m env req now route thid s).1 ≢ error 500 message
  unfolding poll
  poll-ne-500 now route thid message s total v e = absurd (
      ground (
        arith,
        poll_found-ne-500 route thid message (fetch now thid s).1 total (λ job h.
            (v.settled thid job (
              unless-some (is_expired now s.terminal_ttl_ms) _ job
                (sym (fetch-eq-unless now thid thid s v).1 ∙ h))).0),
      ))

-- Two credential routes are the same to a poller exactly when the tenants and the sectors are equal,
-- and the jurisdictions and the credential types are equal up to case.
same_route_iff :
    (a b : CredentialRoute)
    → (same_route a b ≡ true) ↔ (
        (a.tenant_id ≡ b.tenant_id)
        × (to_lower a.jurisdiction ≡ to_lower b.jurisdiction)
        × (a.sector ≡ b.sector)
        × (to_lower a.credential_type ≡ to_lower b.credential_type))
unfolding same_route
same_route_iff a b = ground (
  arith,
  eq_iff a.tenant_id b.tenant_id,
  eq_iff (to_lower a.jurisdiction) (to_lower b.jurisdiction),
  eq_iff a.sector b.sector,
  eq_iff (to_lower a.credential_type) (to_lower b.credential_type),
)
