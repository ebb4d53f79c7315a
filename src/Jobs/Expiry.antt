-- ===== src/Jobs/Expiry.antt =====
-- When a job of src/api/entity-job-store.ts is deleted: `cleanup`, which every `get` runs first.
use mathlib.Core.Path.{subst}
use dataspace_ica_ts.Common.{
  ℕ, ◌-◌, ◌≤◌, String, ◌≡◌, refl, ◌⊎◌, inl, inr, ◌↔◌, false, ◌&&◌, Option, none, some, arith, ltb,
  Bool-cases, some_inj,
}
use dataspace_ica_ts.Dict.{get}
use dataspace_ica_ts.Dict.Laws.{unless}
use dataspace_ica_ts.Jobs.{
  Status, queued, running, succeeded, failed, is_closed, Job, JobStore, is_expired, fetch,
}
use dataspace_ica_ts.Jobs.Laws.{IsValid, fetch-eq-unless}

closed_iff :
    (status : Status) (now ttl updated_at : ℕ)
    → ((is_closed status && ltb ttl (now - updated_at)) ≡ false)
      ↔ ((status ≡ succeeded) ⊎ (status ≡ failed) → now - updated_at ≤ ttl)
unfolding is_closed
closed_iff queued now ttl updated_at = (λ _ e. absurd (ground arith), λ _. refl)
closed_iff running now ttl updated_at = (λ _ e. absurd (ground arith), λ _. refl)
closed_iff succeeded now ttl updated_at =
    (λ kept e. ground arith, λ there. let small = there (inl refl) in ground arith)
closed_iff failed now ttl updated_at =
    (λ kept e. ground arith, λ there. let small = there (inr refl) in ground arith)

module _ {R A : Type 0} where
  -- A job that is there at `now`: open, or finished and changed at most the time to live ago.
  abbrev pub IsThere : ℕ → ℕ → Job R A → Type 0
  IsThere now ttl job =
      (job.status ≡ succeeded) ⊎ (job.status ≡ failed) → now - job.updated_at ≤ ttl

  is_expired_iff :
      (now ttl : ℕ) (job : Job R A) → (is_expired now ttl job ≡ false) ↔ IsThere now ttl job
  unfolding is_expired is_closed
  is_expired_iff now ttl job = closed_iff job.status now ttl job.updated_at

  unless_iff :
      (now ttl : ℕ) (o : Option (Job R A)) (job : Job R A)
      → (unless (is_expired now ttl) o ≡ some job) ↔ ((o ≡ some job) × IsThere now ttl job)
  unless_iff now ttl none job = (λ e. absurd (ground arith), λ e. absurd (ground arith))
  unless_iff now ttl (some old) job = elim (Bool-cases (is_expired now ttl old)) [
    | inl gone ↦ (
      λ e. absurd (ground arith),
      λ e.
          let same = some_inj old job e.0 in
          let kept = (is_expired_iff now ttl job).1 e.1 in absurd (cc (gone, same, kept)),
    )
    | inr kept ↦ rw kept (
      λ e. (e, subst (IsThere now ttl) (some_inj old job e) ((is_expired_iff now ttl old).0 kept)),
      λ e. e.0,
    )
  ]

  -- Reading a key `k` of a valid store, at a time `now`, leaves exactly these jobs, under whichever key
  -- they are, and returns the one under `k`: the queued and the running jobs, and the succeeded and
  -- the failed jobs whose last change is at most the time to live ago.
  pub fetch_iff :
      (now : ℕ) (k j : String) (s : JobStore R A) (job : Job R A)
      → IsValid s
      → ((get j (fetch now k s).0.jobs ≡ some job) ↔ (
          (get j s.jobs ≡ some job)
          × ((job.status ≡ succeeded) ⊎ (job.status ≡ failed)
              → now - job.updated_at ≤ s.terminal_ttl_ms)))
        × (((fetch now k s).1 ≡ some job) ↔ (
            (get k s.jobs ≡ some job)
            × ((job.status ≡ succeeded) ⊎ (job.status ≡ failed)
                → now - job.updated_at ≤ s.terminal_ttl_ms)))
  fetch_iff now k j s job v =
      let (left, read) = fetch-eq-unless now k j s v in
      (
        rw left (unless_iff now s.terminal_ttl_ms (get j s.jobs) job),
        rw read (unless_iff now s.terminal_ttl_ms (get k s.jobs) job),
      )
