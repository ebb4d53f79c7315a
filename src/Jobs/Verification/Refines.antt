-- ===== src/Jobs/Verification/Refines.antt =====
-- Forgetting the error details maps the verification store onto the entity store.
use mathlib.Core.Option
use dataspace_ica_ts.Common.{ℕ, String, ◌≡◌, refl, sym, ap, Bool, Option, [], ◌∷◌, arith}
use dataspace_ica_ts.Dict.{Dict, get, put, modify, drop_if}
use dataspace_ica_ts.Jobs
use dataspace_ica_ts.Jobs.{Job, JobStore}
use dataspace_ica_ts.Jobs.Verification.{
  VerificationJob, VerificationJobStore, enqueue, mark_running, mark_succeeded, mark_failed,
  is_expired, fetch,
}

module _ {V W : Type 0} (f : V → W) where
  abbrev pub map_values : Dict V → Dict W
  map_values [] = []
  map_values ((k, v) ∷ d) = (k, f v) ∷ map_values d

  get-map_values : (k : String) (d : Dict V) → get k (map_values d) ≡ Option.map f (get k d)
  unfolding get
  get-map_values k [] = ground arith
  get-map_values k ((j, v) ∷ d) = ground (arith, get-map_values k d)

  map_values-put :
      (k : String) (v : V) (d : Dict V) → map_values (put k v d) ≡ put k (f v) (map_values d)
  unfolding put
  map_values-put k v [] = refl
  map_values-put k v ((j, w) ∷ d) = ground (arith, map_values-put k v d)

  map_values-modify :
      (k : String) (g : V → V) (h : W → W) (d : Dict V)
      → ((v : V) → f (g v) ≡ h (f v))
      → map_values (modify k g d) ≡ modify k h (map_values d)
  unfolding modify
  map_values-modify k g h [] e = refl
  map_values-modify k g h ((j, v) ∷ d) e = ground (arith, map_values-modify k g h d e, e v)

  map_values-drop_if :
      (p : V → Bool) (q : W → Bool) (d : Dict V)
      → ((v : V) → p v ≡ q (f v))
      → map_values (drop_if p d) ≡ drop_if q (map_values d)
  unfolding drop_if
  map_values-drop_if p q [] e = refl
  map_values-drop_if p q ((j, v) ∷ d) e = ground (arith, map_values-drop_if p q d e, e v)

abbrev at : {R A : Type 0} → JobStore R A → Dict (Job R A) → JobStore R A
at s d = record s { jobs = d }

module _ {R A D : Type 0} where
  abbrev pub forget_job : VerificationJob R A D → Job R A
  forget_job job = record {
    thid = job.thid;
    route = job.route;
    status = job.status;
    created_at = job.created_at;
    updated_at = job.updated_at;
    result = job.result;
    error = job.error;
  }

  abbrev pub forget : VerificationJobStore R A D → JobStore R A
  forget s = record { jobs = map_values forget_job s.jobs; terminal_ttl_ms = s.terminal_ttl_ms }

  -- Each operation of the verification store is that of the entity store, once the error details are
  -- forgotten: the writes, the deletions of `get`, and the job that `get` returns.
  pub forget-operations :
      (now : ℕ) (k : String) (r : R) (a : A) (m : String) (details : Option D)
      (s : VerificationJobStore R A D)
      → (forget (enqueue now k r s) ≡ Jobs.enqueue now k r (forget s))
        × (forget (mark_running now k s) ≡ Jobs.mark_running now k (forget s))
        × (forget (mark_succeeded now k a s) ≡ Jobs.mark_succeeded now k a (forget s))
        × (forget (mark_failed now k m details s) ≡ Jobs.mark_failed now k m (forget s))
        × (forget (fetch now k s).0 ≡ (Jobs.fetch now k (forget s)).0)
        × (Option.map forget_job (fetch now k s).1 ≡ (Jobs.fetch now k (forget s)).1)
  unfolding enqueue mark_running mark_succeeded mark_failed fetch is_expired Jobs.enqueue
      Jobs.mark_running Jobs.mark_succeeded Jobs.mark_failed Jobs.fetch Jobs.is_expired
  forget-operations now k r a m details s =
      let d =
        map_values-drop_if forget_job (is_expired now s.terminal_ttl_ms)
          (Jobs.is_expired now s.terminal_ttl_ms) s.jobs (λ job. refl) in
      (
        ap (at (forget s)) (map_values-put forget_job k _ s.jobs),
        ap (at (forget s)) (map_values-modify forget_job k _ _ s.jobs (λ job. refl)),
        ap (at (forget s)) (map_values-modify forget_job k _ _ s.jobs (λ job. refl)),
        ap (at (forget s)) (map_values-modify forget_job k _ _ s.jobs (λ job. refl)),
        ap (at (forget s)) d,
        rw (← d) (sym (get-map_values forget_job k _)),
      )
