-- ===== src/Jobs/Laws.antt =====
-- What a poller can see of a job after each operation, and for how long.
use mathlib.Core.Option
use dataspace_ica_ts.Common.{
  ℕ, ◌-◌, String, ◌≡◌, refl, Bool, true, Option, none, some, arith, eq_iff, eq_refl, ltb, List, [],
  ◌∷◌, ◌∙◌, is_some, ◌==◌, if◌then◌else◌,
}
use dataspace_ica_ts.Dict.{Dict, get, put, modify}
use dataspace_ica_ts.Dict.Laws.{
  get-put, get-put_self, get-modify, get-drop_if, put-IsDistinct, modify-IsDistinct,
  drop_if-IsDistinct, IsDistinct, unless,
}
use dataspace_ica_ts.Jobs.{
  succeeded, failed, Job, JobStore, new_store, enqueue, mark_running, mark_succeeded, mark_failed,
  is_expired, cleanup, fetch,
}

-- The calls of the store, as data.
pub data Op (R A : Type 0) : Type 0 where
  enqueue_op : ℕ → String → R → Op R A
  running_op : ℕ → String → Op R A
  succeeded_op : ℕ → String → A → Op R A
  failed_op : ℕ → String → String → Op R A
  get_op : ℕ → String → Op R A

module _ {R A : Type 0} where
  unfoldable pub apply : Op R A → JobStore R A → JobStore R A
  unfolding fetch cleanup
  apply (enqueue_op now thid route) s = enqueue now thid route s
  apply (running_op now thid) s = mark_running now thid s
  apply (succeeded_op now thid a) s = mark_succeeded now thid a s
  apply (failed_op now thid m) s = mark_failed now thid m s
  apply (get_op now thid) s = (fetch now thid s).0

  -- A job lies under its own thread id.
  abbrev pub IsKeyed : Dict (Job R A) → Type 0
  IsKeyed d = (k : String) (job : Job R A) → get k d ≡ some job → job.thid ≡ k

  -- A finished job carries what the poller reads: a result or an error.
  abbrev pub IsSettled : Dict (Job R A) → Type 0
  IsSettled d =
      (k : String) (job : Job R A)
      → get k d ≡ some job
      → (job.status ≡ succeeded → is_some job.result ≡ true)
        × (job.status ≡ failed → is_some job.error ≡ true)

  pub record IsValid (s : JobStore R A) : Type 0 where
    pub distinct : IsDistinct s.jobs
    pub keyed : IsKeyed s.jobs
    pub settled : IsSettled s.jobs

  pub unless-some :
      (p : Job R A → Bool) (o : Option (Job R A)) (job : Job R A)
      → unless p o ≡ some job
      → o ≡ some job
  unless-some p none job h = cc
  unless-some p (some x) job h = ground arith

  put-IsValid :
      (k : String) (job : Job R A) (s : JobStore R A)
      → job.thid ≡ k
      → (job.status ≡ succeeded → is_some job.result ≡ true)
        × (job.status ≡ failed → is_some job.error ≡ true)
      → IsValid s
      → IsValid (record s { jobs = put k job s.jobs })
  put-IsValid k job s same ok v = record {
    distinct = put-IsDistinct k job s.jobs v.distinct;
    keyed = λ j x h. ground (arith, get-put k j job s.jobs, v.keyed j x, eq_iff k j);
    settled = λ j x h. ground (arith, get-put k j job s.jobs, v.settled j x, eq_iff k j);
  }

  modify-IsValid :
      (k : String) (f : Job R A → Job R A) (s : JobStore R A)
      → ((job : Job R A) → (f job).thid ≡ job.thid)
      → ((job : Job R A)
          → ((f job).status ≡ succeeded → is_some (f job).result ≡ true)
            × ((f job).status ≡ failed → is_some (f job).error ≡ true))
      → IsValid s
      → IsValid (record s { jobs = modify k f s.jobs })
  modify-IsValid k f s same ok v = record {
    distinct = modify-IsDistinct k f s.jobs v.distinct;
    keyed = λ j x h. at_key j x (get j s.jobs) (v.keyed j) (rw (get-modify k j f s.jobs) at h);
    settled = λ j x h. at_job j x (get j s.jobs) (v.settled j) (rw (get-modify k j f s.jobs) at h);
  }
    where
      at_key :
          (j : String) (x : Job R A) (o : Option (Job R A))
          → ((job : Job R A) → o ≡ some job → job.thid ≡ j)
          → (if k == j then Option.map f o else o) ≡ some x
          → x.thid ≡ j
      at_key j x none before h = ground arith
      at_key j x (some job) before h = ground (arith, before job refl, same job)

      at_job :
          (j : String) (x : Job R A) (o : Option (Job R A))
          → ((job : Job R A)
              → o ≡ some job
              → (job.status ≡ succeeded → is_some job.result ≡ true)
                × (job.status ≡ failed → is_some job.error ≡ true))
          → (if k == j then Option.map f o else o) ≡ some x
          → (x.status ≡ succeeded → is_some x.result ≡ true)
            × (x.status ≡ failed → is_some x.error ≡ true)
      at_job j x none before h = ground arith
      at_job j x (some job) before h = ground (arith, before job refl, ok job)

  cleanup-IsValid : (now : ℕ) (s : JobStore R A) → IsValid s → IsValid (cleanup now s)
  unfolding cleanup
  cleanup-IsValid now s v =
      let expired = is_expired now s.terminal_ttl_ms in
      record {
        distinct = drop_if-IsDistinct expired s.jobs v.distinct;
        keyed = λ j x h.
            v.keyed j x
              (unless-some expired _ x (rw (get-drop_if expired j s.jobs v.distinct) at h));
        settled = λ j x h.
            v.settled j x
              (unless-some expired _ x (rw (get-drop_if expired j s.jobs v.distinct) at h));
      }

  -- Whatever the store's methods are called with, in a valid store they leave a valid store.
  pub apply-IsValid : (op : Op R A) (s : JobStore R A) → IsValid s → IsValid (apply op s)
  unfolding apply enqueue mark_running mark_succeeded mark_failed
  apply-IsValid (enqueue_op now thid route) s v = put-IsValid thid _ s refl (ground arith) v
  apply-IsValid (running_op now thid) s v =
      modify-IsValid thid _ s (λ job. refl) (λ job. ground arith) v
  apply-IsValid (succeeded_op now thid a) s v =
      modify-IsValid thid _ s (λ job. refl) (λ job. ground arith) v
  apply-IsValid (failed_op now thid m) s v =
      modify-IsValid thid _ s (λ job. refl) (λ job. ground arith) v
  apply-IsValid (get_op now thid) s v = cleanup-IsValid now s v

  unfoldable pub apply_all : List (Op R A) → JobStore R A → JobStore R A
  unfolding apply
  apply_all [] s = s
  apply_all (op ∷ ops) s = apply_all ops (apply op s)

  apply_all_keeps : (ops : List (Op R A)) (s : JobStore R A) → IsValid s → IsValid (apply_all ops s)
  unfolding apply_all
  apply_all_keeps [] s v = v
  apply_all_keeps (op ∷ ops) s v = apply_all_keeps ops (apply op s) (apply-IsValid op s v)

  pub new_store-IsValid : (ttl : ℕ) → IsValid (new_store ttl)
  unfolding new_store get
  new_store-IsValid ttl = record { distinct = tt; keyed = λ k job h. cc; settled = λ k job h. cc }

  -- After any calls on a new store, each job lies under its own thread id, no thread id occurs twice,
  -- a succeeded job has a result and a failed job has an error.
  pub apply_all-IsValid : (ttl : ℕ) (ops : List (Op R A)) → IsValid (apply_all ops (new_store ttl))
  apply_all-IsValid ttl ops = apply_all_keeps ops (new_store ttl) (new_store-IsValid ttl)

  pub fetch-eq-unless :
      (now : ℕ) (k j : String) (s : JobStore R A)
      → IsValid s
      → (get j (fetch now k s).0.jobs ≡ unless (is_expired now s.terminal_ttl_ms) (get j s.jobs))
        × ((fetch now k s).1 ≡ unless (is_expired now s.terminal_ttl_ms) (get k s.jobs))
  unfolding fetch
  fetch-eq-unless now k j s v = (
    get-drop_if (is_expired now s.terminal_ttl_ms) j s.jobs v.distinct,
    get-drop_if (is_expired now s.terminal_ttl_ms) k s.jobs v.distinct,
  )

  pub fetch-succeeded_of_get :
      (t now : ℕ) (k : String) (a : A) (job : Job R A) (s : JobStore R A)
      → IsValid s
      → get k s.jobs ≡ some job
      → (fetch now k (mark_succeeded t k a s)).1 ≡ (
          if ltb s.terminal_ttl_ms (now - t)
          then none
          else some
              (record job { status = succeeded; updated_at = t; result = some a; error = none }))
  fetch-succeeded_of_get t now k a job s v e =
      (fetch-eq-unless now k k (mark_succeeded t k a s)
        (unfold apply in apply-IsValid (succeeded_op t k a) s v)).1
      ∙ unfold mark_succeeded is_expired in simp (get-modify, e, eq_refl)

  -- A job that was submitted at t₁, started at t₂ and succeeded at t₃ is read with its result, its
  -- times and no error, until the time to live has passed since t₃; from then on it is gone.
  pub fetch-mark_succeeded :
      (t₁ t₂ t₃ now : ℕ) (k : String) (r : R) (a : A) (s : JobStore R A)
      → IsValid s
      → (fetch now k (mark_succeeded t₃ k a (mark_running t₂ k (enqueue t₁ k r s)))).1 ≡ (
          if ltb s.terminal_ttl_ms (now - t₃)
          then none
          else some (record {
            thid = k;
            route = r;
            status = succeeded;
            created_at = t₁;
            updated_at = t₃;
            result = some a;
            error = none;
          }))
  fetch-mark_succeeded t₁ t₂ t₃ now k r a s v =
      let w =
        apply-IsValid (succeeded_op t₃ k a) _
          (apply-IsValid (running_op t₂ k) _ (apply-IsValid (enqueue_op t₁ k r) s v)) in
      unfold apply in
      (fetch-eq-unless now k k _ w).1
      ∙ unfold enqueue mark_running mark_succeeded is_expired in
        (simp (get-modify, get-put_self, eq_refl))
