-- ===== src/Jobs.antt =====
-- src/api/entity-job-store.ts: the in-memory store of asynchronous jobs, keyed by thread id.
-- `Date.now()` is the argument `now`, in milliseconds. A method that mutates a job in place is the
-- write of the changed job under its key.
pub mod Verification
pub mod Activation
pub mod Laws
pub mod Expiry
pub mod Tasks
pub mod Isolation
pub mod Reused
pub mod Tests
use dataspace_ica_ts.Common.{
  ℕ, ◌-◌, ◌*◌, String, Bool, true, false, ◌&&◌, Option, none, some, [], ltb,
}
use dataspace_ica_ts.Dict.{Dict, get, put, modify, drop_if}

-- `EntityJobStatus` of src/api/types.ts.
pub data Status : Type 0 where
  queued running succeeded failed : Status

pub record Job (R A : Type 0) : Type 0 where
  pub thid : String
  pub route : R
  pub status : Status
  pub created_at : ℕ
  pub updated_at : ℕ
  pub result : Option A
  pub error : Option String

pub record JobStore (R A : Type 0) : Type 0 where
  pub jobs : Dict (Job R A)
  pub terminal_ttl_ms : ℕ

unfoldable pub is_open : Status → Bool
is_open queued = true
is_open running = true
is_open succeeded = false
is_open failed = false

unfoldable pub is_closed : Status → Bool
is_closed queued = false
is_closed running = false
is_closed succeeded = true
is_closed failed = true

module _ {R A : Type 0} where
  unfoldable pub new_store : ℕ → JobStore R A
  new_store terminal_ttl_seconds = record {
    jobs = [];
    terminal_ttl_ms = terminal_ttl_seconds * 1000;
  }

  unfoldable pub enqueue : ℕ → String → R → JobStore R A → JobStore R A
  enqueue now thid route s =
      let job : Job R A = record {
        thid = thid;
        route = route;
        status = queued;
        created_at = now;
        updated_at = now;
        result = none;
        error = none;
      } in
      record s { jobs = put thid job s.jobs }

  unfoldable pub mark_running : ℕ → String → JobStore R A → JobStore R A
  mark_running now thid s = record s {
    jobs = modify thid (λ job. record job { status = running; updated_at = now }) s.jobs;
  }

  unfoldable pub mark_succeeded : ℕ → String → A → JobStore R A → JobStore R A
  mark_succeeded now thid result s = record s {
    jobs =
        modify thid
          (λ job. record job {
            status = succeeded;
            result = some result;
            error = none;
            updated_at = now;
          })
          s.jobs;
  }

  unfoldable pub mark_failed : ℕ → String → String → JobStore R A → JobStore R A
  mark_failed now thid message s = record s {
    jobs =
        modify thid (λ job. record job { status = failed; error = some message; updated_at = now })
          s.jobs;
  }

  -- The test of `cleanup` under which a job is deleted.
  unfoldable pub is_expired : ℕ → ℕ → Job R A → Bool
  unfolding is_closed
  is_expired now ttl job = is_closed job.status && ltb ttl (now - job.updated_at)

  unfoldable pub cleanup : ℕ → JobStore R A → JobStore R A
  cleanup now s = record s { jobs = drop_if (is_expired now s.terminal_ttl_ms) s.jobs }

  -- `get`: clean up, then look the thread up.
  unfoldable pub fetch : ℕ → String → JobStore R A → JobStore R A × Option (Job R A)
  unfolding cleanup
  fetch now thid s = let s' = cleanup now s in (s', get thid s'.jobs)
