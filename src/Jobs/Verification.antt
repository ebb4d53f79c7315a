-- ===== src/Jobs/Verification.antt =====
-- src/api/job-store.ts: the store of PDF verifications, whose failed jobs carry error details too.
pub mod Refines
use dataspace_ica_ts.Common.{ℕ, ◌-◌, ◌*◌, String, Bool, ◌&&◌, Option, none, some, [], ltb}
use dataspace_ica_ts.Dict.{Dict, get, put, modify, drop_if}
use dataspace_ica_ts.Jobs.{Status, queued, running, succeeded, failed, is_closed}

pub record VerificationJob (R A D : Type 0) : Type 0 where
  pub thid : String
  pub route : R
  pub status : Status
  pub created_at : ℕ
  pub updated_at : ℕ
  pub result : Option A
  pub error : Option String
  pub error_details : Option D

pub record VerificationJobStore (R A D : Type 0) : Type 0 where
  pub jobs : Dict (VerificationJob R A D)
  pub terminal_ttl_ms : ℕ

module _ {R A D : Type 0} where
  unfoldable pub new_store : ℕ → VerificationJobStore R A D
  new_store terminal_ttl_seconds = record {
    jobs = [];
    terminal_ttl_ms = terminal_ttl_seconds * 1000;
  }

  unfoldable pub enqueue : ℕ → String → R → VerificationJobStore R A D → VerificationJobStore R A D
  enqueue now thid route s =
      let job : VerificationJob R A D = record {
        thid = thid;
        route = route;
        status = queued;
        created_at = now;
        updated_at = now;
        result = none;
        error = none;
        error_details = none;
      } in
      record s { jobs = put thid job s.jobs }

  unfoldable pub mark_running : ℕ → String → VerificationJobStore R A D → VerificationJobStore R A D
  mark_running now thid s = record s {
    jobs = modify thid (λ job. record job { status = running; updated_at = now }) s.jobs;
  }

  unfoldable pub mark_succeeded :
      ℕ → String → A → VerificationJobStore R A D → VerificationJobStore R A D
  mark_succeeded now thid result s = record s {
    jobs =
        modify thid
          (λ job. record job {
            status = succeeded;
            result = some result;
            error = none;
            error_details = none;
            updated_at = now;
          })
          s.jobs;
  }

  unfoldable pub mark_failed :
      ℕ → String → String → Option D → VerificationJobStore R A D → VerificationJobStore R A D
  mark_failed now thid message details s = record s {
    jobs =
        modify thid
          (λ job. record job {
            status = failed;
            error = some message;
            error_details = details;
            updated_at = now;
          })
          s.jobs;
  }

  unfoldable pub is_expired : ℕ → ℕ → VerificationJob R A D → Bool
  unfolding is_closed
  is_expired now ttl job = is_closed job.status && ltb ttl (now - job.updated_at)

  unfoldable pub cleanup : ℕ → VerificationJobStore R A D → VerificationJobStore R A D
  cleanup now s = record s { jobs = drop_if (is_expired now s.terminal_ttl_ms) s.jobs }

  unfoldable pub fetch :
      ℕ
      → String
      → VerificationJobStore R A D
      → VerificationJobStore R A D × Option (VerificationJob R A D)
  unfolding cleanup
  fetch now thid s = let s' = cleanup now s in (s', get thid s'.jobs)
