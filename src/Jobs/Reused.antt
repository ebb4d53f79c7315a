-- ===== src/Jobs/Reused.antt =====
-- Two submissions that share a thread id, on the loop of Jobs.Tasks.
use dataspace_ica_ts.Common.{ℕ, String, ◌≡◌, none, some, ◌∷◌, eq_refl, if◌then◌else◌, ltb, ◌-◌}
use dataspace_ica_ts.Dict.{get}
use dataspace_ica_ts.Dict.Laws.{get-put_self, get-modify}
use dataspace_ica_ts.Jobs.{succeeded, Job, enqueue, mark_running, mark_succeeded, fetch}
use dataspace_ica_ts.Jobs.Laws.{
  IsValid, apply, apply-IsValid, enqueue_op, running_op, succeeded_op, fetch-mark_succeeded,
  fetch-succeeded_of_get,
}
use dataspace_ica_ts.Jobs.Tasks.{Loop, submit, start, finish}

-- A thread id that two submissions share, on a loop with no call in between: the first is submitted
-- and its task starts; the second is submitted on another route and its task starts; the first
-- task finishes with `a`.
module _ {R A : Type 0} (k : String) (first second : R) (a : A) (l : Loop R A) where
  abbrev pub both_started : ℕ → ℕ → ℕ → ℕ → Loop R A
  both_started t₁ t₂ t₃ t₄ =
      start t₄ (record { thid = k; route = second })
        (submit t₃ k second (start t₂ (record { thid = k; route = first }) (submit t₁ k first l)))

  abbrev pub first_finished : ℕ → ℕ → ℕ → ℕ → ℕ → Loop R A
  first_finished t₁ t₂ t₃ t₄ t₅ =
      finish t₅ (record { thid = k; route = first }) a
        (record { thid = k; route = second } ∷ l.pending) (both_started t₁ t₂ t₃ t₄)

  found_first :
      (t₁ t₂ t₃ t₄ t₅ : ℕ)
      → get k (first_finished t₁ t₂ t₃ t₄ t₅).store.jobs
        ≡ some (record {
          thid = k;
          route = second;
          status = succeeded;
          created_at = t₃;
          updated_at = t₅;
          result = some a;
          error = none;
        })
  unfolding submit start finish enqueue mark_running mark_succeeded
  found_first t₁ t₂ t₃ t₄ t₅ = simp (get-modify, get-put_self, eq_refl)

  first_finished-IsValid :
      (t₁ t₂ t₃ t₄ t₅ : ℕ) → IsValid l.store → IsValid (first_finished t₁ t₂ t₃ t₄ t₅).store
  unfolding submit start finish apply
  first_finished-IsValid t₁ t₂ t₃ t₄ t₅ v =
      let one =
        apply-IsValid (running_op t₂ k) _ (apply-IsValid (enqueue_op t₁ k first) l.store v) in
      let two = apply-IsValid (running_op t₄ k) _ (apply-IsValid (enqueue_op t₃ k second) _ one) in
      apply-IsValid (succeeded_op t₅ k a) _ two

-- On a loop with a valid store, a thread id is submitted, its task starts, it is submitted again on a
-- second route, that task starts, and then the first task finishes, with `a`. A read that comes next
-- returns, up to the time to live after that and nothing later, the job of the second route as
-- succeeded with the result `a`. Where instead of the read the second task finishes, with `b`, a read
-- that comes next returns, up to the time to live after that and nothing later, the job of the second
-- route as succeeded with the result `b`.
pub fetch-reused_thid :
    {R A : Type 0} (t₁ t₂ t₃ t₄ t₅ t₆ now : ℕ) (k : String) (first second : R) (a b : A)
    (l : Loop R A)
    → IsValid l.store
    → let job : A → ℕ → Job R A = λ result updated_at. record {
      thid = k;
      route = second;
      status = succeeded;
      created_at = t₃;
      updated_at = updated_at;
      result = some result;
      error = none;
    } in
      let ending = first_finished k first second a l t₁ t₂ t₃ t₄ t₅ in
      let ended = finish t₆ (record { thid = k; route = second }) b l.pending ending in
      ((fetch now k ending.store).1
        ≡ (if ltb l.store.terminal_ttl_ms (now - t₅) then none else some (job a t₅)))
      × ((fetch now k ended.store).1
          ≡ (if ltb l.store.terminal_ttl_ms (now - t₆) then none else some (job b t₆)))
fetch-reused_thid t₁ t₂ t₃ t₄ t₅ t₆ now k first second a b l v =
    let ending = first_finished k first second a l t₁ t₂ t₃ t₄ t₅ in
    let one : IsValid (start t₂ (record { thid = k; route = first }) (submit t₁ k first l)).store =
      unfold submit start apply in
      apply-IsValid (running_op t₂ k) _ (apply-IsValid (enqueue_op t₁ k first) l.store v) in
    (
      unfold submit start finish enqueue mark_running in
          fetch-mark_succeeded t₃ t₄ t₅ now k second a _ (unfold submit start in one),
      unfold finish submit start enqueue mark_running mark_succeeded in
          fetch-succeeded_of_get t₆ now k b _ ending.store
            (first_finished-IsValid k first second a l t₁ t₂ t₃ t₄ t₅ v)
            (found_first k first second a l t₁ t₂ t₃ t₄ t₅),
    )
