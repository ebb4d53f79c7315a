-- ===== src/Poll.antt =====
-- The `poll` method that the response managers of src/api/managers share: the guards on the thread
-- id, on the job and on its route, then one branch for each status. What a manager writes of its
-- own is the record `Manager`; `poll` is the code around it, as in credential-revoke-response-manager.ts.
-- The thread id is what `parsePollingThreadId` found, empty where it found none.
pub mod Bodies
pub mod Credentials
pub mod Entities
pub mod Documents
pub mod Backend
pub mod Laws
pub mod Actions
pub mod Tests
use dataspace_ica_ts.Common.{
  ℕ, String, Bool, true, false, Option, none, some, List, [], ◌∷◌, ◌|||◌, is_empty, if◌then◌else◌,
  not,
}
use dataspace_ica_ts.Text.{join}
use dataspace_ica_ts.Json.{Json, str, num, object, array}
use dataspace_ica_ts.Didcomm.{Settings, Request}
use dataspace_ica_ts.Jobs.{Job, JobStore, Status, queued, running, succeeded, failed, fetch}

pub data PollOutcome : Type 0 where
  error : ℕ → String → PollOutcome
  pending : String → ℕ → PollOutcome
  failed_with : Json → PollOutcome
  succeeded_with : Json → PollOutcome

pub record Manager (R A : Type 0) : Type 0 where
  pub same_route : R → R → Bool
  pub missing_thid : R → String
  pub job_not_found : String → String
  pub foreign_route : String → R → R → String
  pub location : Settings → R → String → String
  pub retry_after : ℕ
  pub failed_payload : Settings → Request → R → String → Job R A → Json
  pub no_result : String → String
  -- `none` where the result that the manager wants is not there.
  pub succeeded_payload : Settings → Request → R → String → Job R A → Option Json

module _ {R A : Type 0} where
  poll_finished : Manager R A → Settings → Request → R → String → Job R A → PollOutcome
  poll_finished m env req route thid job = elim (m.succeeded_payload env req route thid job) [
    | none ↦ error 500 (m.no_result thid)
    | some payload ↦ succeeded_with payload
  ]

  poll_job : Status → Manager R A → Settings → Request → R → String → Job R A → PollOutcome
  unfolding poll_finished
  poll_job queued m env req route thid job = pending (m.location env route thid) m.retry_after
  poll_job running m env req route thid job = pending (m.location env route thid) m.retry_after
  poll_job failed m env req route thid job = failed_with (m.failed_payload env req route thid job)
  poll_job succeeded m env req route thid job = poll_finished m env req route thid job

  poll_found : Manager R A → Settings → Request → R → String → Option (Job R A) → PollOutcome
  unfolding poll_job
  poll_found m env req route thid none = error 404 (m.job_not_found thid)
  poll_found m env req route thid (some job) =
      if not (m.same_route job.route route)
      then error 404 (m.foreign_route thid job.route route)
      else poll_job job.status m env req route thid job

  -- `poll`: the store is cleaned up by the read of the job.
  unfoldable pub poll :
      Manager R A → Settings → Request → ℕ → R → String → JobStore R A → JobStore R A × PollOutcome
  unfolding poll_found
  poll m env req now route thid s =
      if is_empty thid
      then (s, error 400 (m.missing_thid route))
      else let (s', found) = fetch now thid s in (s', poll_found m env req route thid found)
