-- ===== src/Jobs/Tests.antt =====
-- Runs of the job stores of src/api/entity-job-store.ts and src/api/job-store.ts.
use dataspace_ica_ts.Common.{
  ℕ, ◌-◌, ◌≤◌, ◌↔◌, ◌⊎◌, String, ◌≡◌, refl, none, some, List, [], ◌∷◌, arith, eq_iff,
}
use mathlib.Core.Option
use dataspace_ica_ts.Dict.{get, put, modify, drop_if}
use dataspace_ica_ts.Jobs
use dataspace_ica_ts.Jobs.{
  Job, JobStore, queued, succeeded, failed, new_store, enqueue, mark_running, mark_succeeded,
  is_expired, is_closed, fetch,
}
use dataspace_ica_ts.Jobs.Laws.{
  Op, enqueue_op, running_op, failed_op, get_op, apply_all, IsValid, new_store-IsValid,
  apply_all-IsValid, fetch-mark_succeeded,
}
use dataspace_ica_ts.Jobs.Expiry.{fetch_iff}
use dataspace_ica_ts.Jobs.Tasks.{Task, Loop, submit, finish, submits, finishes, Reaches, here, next}
use dataspace_ica_ts.Jobs.Isolation.{idle, Reaches-fetch-own}
use dataspace_ica_ts.Jobs.Reused.{first_finished, fetch-reused_thid}
use dataspace_ica_ts.Jobs.Verification
use dataspace_ica_ts.Jobs.Verification.{VerificationJobStore}
use dataspace_ica_ts.Jobs.Verification.Refines.{forget, forget_job, forget-operations}

-- The work of a task answers with the name of its route.
abbrev Echoes : String → String → String → Type 0
Echoes route thid answer = answer ≡ route

abbrev task_of : String → String → Task String
task_of thid route = record { thid = thid; route = route }

abbrev two_submitted : Loop String String
two_submitted = submit 6 "u" "search" (submit 5 "t" "revoke" (idle 10))

abbrev one_finished : Loop String String
one_finished = finish 7 (task_of "t" "revoke") "revoke" (task_of "u" "search" ∷ []) two_submitted

two_submitted-Reaches : Reaches Echoes (idle 10) two_submitted
unfolding submit
two_submitted-Reaches =
    next (next here (submits 5 "t" "revoke" tt))
      (submits 6 "u" "search" (ground (arith, eq_iff "t" "u"), tt))

one_finished-Reaches : Reaches Echoes (idle 10) one_finished
unfolding submit
one_finished-Reaches =
    next two_submitted-Reaches
      (finishes 7 (task_of "t" "revoke") "revoke" (task_of "u" "search" ∷ []) [] refl refl)

abbrev finished_job : Job String String
finished_job = record {
  thid = "t";
  route = "revoke";
  status = succeeded;
  created_at = 5;
  updated_at = 7;
  result = some "revoke";
  error = none;
}

fetch_finished : (fetch 8 "t" one_finished.store).1 ≡ some finished_job
unfolding fetch finish submit enqueue mark_succeeded get put modify drop_if is_expired new_store
fetch_finished = refl

Reaches-fetch-own_example : Echoes "revoke" "t" "revoke"
Reaches-fetch-own_example =
    Reaches-fetch-own Echoes 10 one_finished 8 "t" finished_job "revoke" one_finished-Reaches
      fetch_finished refl

abbrev calls : List (Op String String)
calls =
    enqueue_op 1 "t" "revoke"
    ∷ running_op 2 "t"
    ∷ failed_op 3 "t" "no such credential"
    ∷ get_op 9 "t"
    ∷ []

apply_all-IsValid_example : IsValid (apply_all calls (new_store 3600))
apply_all-IsValid_example = apply_all-IsValid 3600 calls

abbrev failed_job : Job String String
failed_job = record {
  thid = "t";
  route = "revoke";
  status = failed;
  created_at = 1;
  updated_at = 3;
  result = none;
  error = some "no such credential";
}

fetch_iff_example :
    ((get "t" (fetch 9 "u" (apply_all calls (new_store 3600))).0.jobs ≡ some failed_job) ↔ (
      (get "t" (apply_all calls (new_store 3600)).jobs ≡ some failed_job)
      × ((failed_job.status ≡ succeeded) ⊎ (failed_job.status ≡ failed)
          → 9 - failed_job.updated_at ≤ (apply_all calls (new_store 3600)).terminal_ttl_ms)))
    × (((fetch 9 "u" (apply_all calls (new_store 3600))).1 ≡ some failed_job) ↔ (
        (get "u" (apply_all calls (new_store 3600)).jobs ≡ some failed_job)
        × ((failed_job.status ≡ succeeded) ⊎ (failed_job.status ≡ failed)
            → 9 - failed_job.updated_at ≤ (apply_all calls (new_store 3600)).terminal_ttl_ms)))
fetch_iff_example =
    fetch_iff 9 "u" "t" (apply_all calls (new_store 3600)) failed_job (apply_all-IsValid 3600 calls)

fetch-mark_succeeded_example :
    (fetch {R = String} {A = String} 2000 "t"
      (mark_succeeded 3 "t" "done" (mark_running 2 "t" (enqueue 1 "t" "revoke" (new_store 1))))).1
    ≡ none
unfolding new_store
fetch-mark_succeeded_example =
    fetch-mark_succeeded 1 2 3 2000 "t" "revoke" "done" (new_store 1) (new_store-IsValid 1)

abbrev search_job : String → ℕ → Job String String
search_job result updated_at = record {
  thid = "t";
  route = "search";
  status = succeeded;
  created_at = 3;
  updated_at = updated_at;
  result = some result;
  error = none;
}

abbrev shared : Loop String String
shared = first_finished "t" "revoke" "search" "revoked" (idle 3600) 1 2 3 4 5

fetch-reused_thid_example :
    ((fetch 7 "t" shared.store).1 ≡ some (search_job "revoked" 5))
    × ((fetch 7 "t" (finish 6 (task_of "t" "search") "found" [] shared).store).1
        ≡ some (search_job "found" 6))
unfolding new_store
fetch-reused_thid_example =
    fetch-reused_thid 1 2 3 4 5 6 7 "t" "revoke" "search" "revoked" "found" (idle 3600)
      (new_store-IsValid 3600)

abbrev verifications : VerificationJobStore String String String
verifications = Verification.enqueue 1 "t" "form" (Verification.new_store 3600)

forget-operations_example :
    (forget (Verification.enqueue 7 "t" "terms" verifications)
      ≡ Jobs.enqueue 7 "t" "terms" (forget verifications))
    × (forget (Verification.mark_running 7 "t" verifications)
        ≡ Jobs.mark_running 7 "t" (forget verifications))
    × (forget (Verification.mark_succeeded 7 "t" "valid" verifications)
        ≡ Jobs.mark_succeeded 7 "t" "valid" (forget verifications))
    × (forget (Verification.mark_failed 7 "t" "revoked" (some "serial 7") verifications)
        ≡ Jobs.mark_failed 7 "t" "revoked" (forget verifications))
    × (forget (Verification.fetch 7 "t" verifications).0
        ≡ (Jobs.fetch 7 "t" (forget verifications)).0)
    × (Option.map forget_job (Verification.fetch 7 "t" verifications).1
        ≡ (Jobs.fetch 7 "t" (forget verifications)).1)
forget-operations_example =
    forget-operations 7 "t" "terms" "valid" "revoked" (some "serial 7") verifications
