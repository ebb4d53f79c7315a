-- ===== src/Jobs/Isolation.antt =====
-- Whose result a job carries.
use mathlib.Core.Option
use mathlib.Core.Path.{subst, subst₃}
use dataspace_ica_ts.Common.{
  ℕ, String, ◌≡◌, refl, sym, ◌∙◌, Option, none, some, List, [], ◌∷◌, ◌++◌, arith, eq_iff, ◌==◌,
  if◌then◌else◌, Bool-cases, inl, inr,
}
use dataspace_ica_ts.Dict.{Dict, get, put, modify}
use dataspace_ica_ts.Dict.Laws.{get-put, get-put_self, get-modify}
use dataspace_ica_ts.Jobs.{
  queued, Job, JobStore, new_store, enqueue, mark_running, mark_succeeded, mark_failed, is_expired,
  fetch,
}
use dataspace_ica_ts.Jobs.Laws.{
  IsValid, apply, apply-IsValid, enqueue_op, running_op, succeeded_op, failed_op, get_op,
  new_store-IsValid, fetch-eq-unless, unless-some,
}
use dataspace_ica_ts.Jobs.Tasks.{
  Task, Loop, submit, start, finish, give_up, poll_store, IsFree, Turn, submits, starts, finishes,
  fails, polls, Reaches, here, next,
}

abbrev pub idle : {R A : Type 0} → ℕ → Loop R A
idle ttl = record { store = new_store ttl; pending = [] }

module _ {R A : Type 0} (Does : R → String → A → Type 0) where
  -- Each result was made for the route and thread id of the job that carries it.
  abbrev pub IsOwn : Job R A → Type 0
  IsOwn job = (a : A) → job.result ≡ some a → Does job.route job.thid a

  abbrev Agrees : Dict (Job R A) → Task R → Type 0
  Agrees d t = (job : Job R A) → get t.thid d ≡ some job → job.route ≡ t.route

  abbrev AllAgree : Dict (Job R A) → List (Task R) → Type 0
  AllAgree d [] = Unit
  AllAgree d (t ∷ ts) = Agrees d t × AllAgree d ts

  pub record IsFaithful (l : Loop R A) : Type 0 where
    pub valid : IsValid l.store
    pub tasks : AllAgree l.store.jobs l.pending
    pub own : (k : String) (job : Job R A) → get k l.store.jobs ≡ some job → IsOwn job

  -- Jobs may vanish or change, but not move to another route.
  abbrev Keeps : Dict (Job R A) → Dict (Job R A) → Type 0
  Keeps d e =
      (k : String) (job : Job R A)
      → get k e ≡ some job
      → (old : Job R A) × (get k d ≡ some old) × (job.route ≡ old.route)

  AllAgree-Keeps :
      (d e : Dict (Job R A)) (ts : List (Task R)) → Keeps d e → AllAgree d ts → AllAgree e ts
  AllAgree-Keeps d e [] keeps h = tt
  AllAgree-Keeps d e (t ∷ ts) keeps (h, hs) = (
    λ job found. let (old, was, same) = keeps t.thid job found in same ∙ h old was,
    AllAgree-Keeps d e ts keeps hs,
  )

  AllAgree-split :
      (d : Dict (Job R A)) (before : List (Task R)) (t : Task R) (after : List (Task R))
      → AllAgree d (before ++ (t ∷ after))
      → Agrees d t × AllAgree d (before ++ after)
  AllAgree-split d [] t after (h, hs) = (h, hs)
  AllAgree-split d (b ∷ before) t after (h, hs) =
      let (at, rest) = AllAgree-split d before t after hs in (at, (h, rest))

  modify-Keeps :
      (k : String) (f : Job R A → Job R A) (d : Dict (Job R A))
      → ((job : Job R A) → (f job).route ≡ job.route)
      → Keeps d (modify k f d)
  modify-Keeps k f d same j job h = from (get j d) refl (rw (get-modify k j f d) at h)
    where
      from :
          (o : Option (Job R A))
          → get j d ≡ o
          → (if k == j then Option.map f o else o) ≡ some job
          → (old : Job R A) × (get j d ≡ some old) × (job.route ≡ old.route)
      from none e h = absurd (ground arith)
      from (some old) e h = (old, e, ground (arith, same old))

  put-AllAgree :
      (k : String) (job : Job R A) (d : Dict (Job R A)) (ts : List (Task R))
      → IsFree k ts
      → AllAgree d ts
      → AllAgree (put k job d) ts
  put-AllAgree k job d [] free h = tt
  put-AllAgree k job d (t ∷ ts) (f, fs) (h, hs) = (
    λ x e. ground (arith, get-put k t.thid job d, eq_iff k t.thid, h x, f),
    put-AllAgree k job d ts fs hs,
  )

  fetch-old :
      (now : ℕ) (k j : String) (s : JobStore R A) (job : Job R A)
      → IsValid s
      → get j (fetch now k s).0.jobs ≡ some job
      → get j s.jobs ≡ some job
  fetch-old now k j s job v h =
      unless-some (is_expired now s.terminal_ttl_ms) (get j s.jobs) job
        (sym (fetch-eq-unless now k j s v).0 ∙ h)

  put-IsOwn :
      (k : String) (new : Job R A) (d : Dict (Job R A))
      → new.result ≡ none
      → ((j : String) (job : Job R A) → get j d ≡ some job → IsOwn job)
      → (j : String) (job : Job R A) → get j (put k new d) ≡ some job
      → IsOwn job
  put-IsOwn k new d empty own j job h = elim (Bool-cases (k == j)) [
    | inl same ↦ λ a e. absurd (ground (arith, get-put k j new d))
    | inr other ↦ own j job (ground (arith, get-put k j new d))
  ]

  -- The own results of the other jobs are untouched by a write to one job.
  modify-IsOwn :
      (k : String) (f : Job R A → Job R A) (d : Dict (Job R A))
      → ((job : Job R A) → get k d ≡ some job → IsOwn (f job))
      → ((j : String) (job : Job R A) → get j d ≡ some job → IsOwn job)
      → (j : String) (job : Job R A) → get j (modify k f d) ≡ some job
      → IsOwn job
  modify-IsOwn k f d new own j job h = from (get j d) refl (rw (get-modify k j f d) at h)
    where
      from :
          (o : Option (Job R A))
          → get j d ≡ o
          → (if k == j then Option.map f o else o) ≡ some job
          → IsOwn job
      from none e h = absurd (ground arith)
      from (some old) e h = elim (Bool-cases (k == j)) [
        | inl same ↦
            let found : get k d ≡ some old = rw ((eq_iff k j).0 same) e in
            let this : f old ≡ job = ground arith in subst IsOwn this (new old found)
        | inr other ↦ let this : old ≡ job = ground arith in subst IsOwn this (own j old e)
      ]

  submit-IsFaithful :
      (now : ℕ) (k : String) (r : R) (l : Loop R A)
      → IsFree k l.pending
      → IsFaithful l
      → IsFaithful (submit now k r l)
  unfolding submit enqueue
  submit-IsFaithful now k r l free f =
      let job : Job R A = record {
        thid = k;
        route = r;
        status = queued;
        created_at = now;
        updated_at = now;
        result = none;
        error = none;
      } in
      record {
        valid = unfold apply in apply-IsValid (enqueue_op now k r) l.store f.valid;
        tasks = (
          λ x e. ground (arith, get-put_self k job l.store.jobs),
          put-AllAgree k job l.store.jobs l.pending free f.tasks,
        );
        own = put-IsOwn k job l.store.jobs refl f.own;
      }

  -- A write to the job of a task, by which the job keeps its thread id and its route.
  write-IsFaithful :
      (k : String) (g : Job R A → Job R A) (l : Loop R A) (pending : List (Task R))
      → IsValid (record l.store { jobs = modify k g l.store.jobs })
      → ((job : Job R A) → (g job).route ≡ job.route)
      → ((job : Job R A) → get k l.store.jobs ≡ some job → IsOwn (g job))
      → AllAgree l.store.jobs pending
      → IsFaithful l
      → IsFaithful
          (record { store = record l.store { jobs = modify k g l.store.jobs }; pending = pending })
  write-IsFaithful k g l pending valid same new tasks f = record {
    valid = valid;
    tasks = AllAgree-Keeps l.store.jobs _ pending (modify-Keeps k g l.store.jobs same) tasks;
    own = modify-IsOwn k g l.store.jobs new f.own;
  }

  Turn-IsFaithful : {l m : Loop R A} → Turn Does l m → IsFaithful l → IsFaithful m
  unfolding start finish give_up poll_store mark_running mark_succeeded mark_failed
  Turn-IsFaithful {l} (submits now k r free) f = submit-IsFaithful now k r l free f
  Turn-IsFaithful {l} (starts now t before after e) f =
      write-IsFaithful t.thid _ l l.pending
        (unfold apply in apply-IsValid (running_op now t.thid) l.store f.valid) (λ job. refl)
        (λ job found. f.own t.thid job found) f.tasks f
  Turn-IsFaithful {l} (finishes now t a before after e does) f =
      let (at, rest) = AllAgree-split l.store.jobs before t after (rw (← e) f.tasks) in
      write-IsFaithful t.thid _ l (before ++ after)
        (unfold apply in apply-IsValid (succeeded_op now t.thid a) l.store f.valid) (λ job. refl)
        (λ job found b h.
          subst₃ Does (sym (at job found)) (sym (f.valid.keyed t.thid job found)) (ground arith)
            does)
        rest f
  Turn-IsFaithful {l} (fails now t m before after e) f =
      let (at, rest) = AllAgree-split l.store.jobs before t after (rw (← e) f.tasks) in
      write-IsFaithful t.thid _ l (before ++ after)
        (unfold apply in apply-IsValid (failed_op now t.thid m) l.store f.valid) (λ job. refl)
        (λ job found. f.own t.thid job found) rest f
  Turn-IsFaithful {l} (polls now k) f = record {
    valid = unfold apply fetch in apply-IsValid (get_op now k) l.store f.valid;
    tasks =
        AllAgree-Keeps l.store.jobs _ l.pending
          (λ j job h. (job, fetch-old now k j l.store job f.valid h, refl)) f.tasks;
    own = λ j job h. f.own j job (fetch-old now k j l.store job f.valid h);
  }

  Reaches-IsFaithful : {l m : Loop R A} → IsFaithful l → Reaches Does l m → IsFaithful m
  Reaches-IsFaithful f here = f
  Reaches-IsFaithful f (next r t) = Turn-IsFaithful t (Reaches-IsFaithful f r)

  idle-IsFaithful : (ttl : ℕ) → IsFaithful (idle ttl)
  unfolding new_store get
  idle-IsFaithful ttl = record {
    valid = new_store-IsValid ttl;
    tasks = tt;
    own = λ k job h. absurd (ground arith);
  }

  -- In every interleaving of submissions, tasks and polls from an empty store, where no client submits
  -- a thread id that a pending task has, a result that a poll at `now` reads was made by the work of
  -- a task for the route of the job that is read and for the polled thread id.
  pub Reaches-fetch-own :
      (ttl : ℕ) (l : Loop R A) (now : ℕ) (k : String) (job : Job R A) (a : A)
      → Reaches Does (idle ttl) l
      → (fetch now k l.store).1 ≡ some job
      → job.result ≡ some a
      → Does job.route k a
  Reaches-fetch-own ttl l now k job a r h e =
      let f = Reaches-IsFaithful (idle-IsFaithful ttl) r in
      let found : get k l.store.jobs ≡ some job =
        unless-some (is_expired now l.store.terminal_ttl_ms) (get k l.store.jobs) job
          (sym (fetch-eq-unless now k k l.store f.valid).1 ∙ h) in
      subst (λ (t : String). Does job.route t a) (f.valid.keyed k job found) (f.own k job found a e)
