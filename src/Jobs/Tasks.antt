-- ===== src/Jobs/Tasks.antt =====
-- The event loop around the store, as every request manager of src/api/managers drives it:
-- `submit` enqueues the job and leaves a task to `setImmediate`; the task marks the job running,
-- does the work, and marks it succeeded or failed. Tasks wait on I/O, so their parts interleave
-- with other submissions, other tasks and polls in any order.
use dataspace_ica_ts.Common.{ℕ, String, ◌≡◌, ◌≢◌, List, [], ◌∷◌, ◌++◌}
use dataspace_ica_ts.Jobs.{JobStore, enqueue, mark_running, mark_succeeded, mark_failed, fetch}

-- What a task closes over: the thread id of its submission and the route that it came on.
pub record Task (R : Type 0) : Type 0 where
  pub thid : String
  pub route : R

pub record Loop (R A : Type 0) : Type 0 where
  pub store : JobStore R A
  pub pending : List (Task R)

-- No pending task has this thread id.
abbrev pub IsFree : {R : Type 0} → String → List (Task R) → Type 0
IsFree k [] = Unit
IsFree k (t ∷ ts) = (t.thid ≢ k) × IsFree k ts

module _ {R A : Type 0} where
  unfoldable pub submit : ℕ → String → R → Loop R A → Loop R A
  submit now thid route l = record {
    store = enqueue now thid route l.store;
    pending = record { thid = thid; route = route } ∷ l.pending;
  }

  unfoldable pub start : ℕ → Task R → Loop R A → Loop R A
  start now t l = record l { store = mark_running now t.thid l.store }

  unfoldable pub finish : ℕ → Task R → A → List (Task R) → Loop R A → Loop R A
  finish now t a rest l = record { store = mark_succeeded now t.thid a l.store; pending = rest }

  unfoldable pub give_up : ℕ → Task R → String → List (Task R) → Loop R A → Loop R A
  give_up now t message rest l = record {
    store = mark_failed now t.thid message l.store;
    pending = rest;
  }

  unfoldable pub poll_store : ℕ → String → Loop R A → Loop R A
  poll_store now thid l = record l { store = (fetch now thid l.store).0 }

  -- One turn of the loop, where a client submits only thread ids that no pending task has.
  -- `Does r k a` holds if the work of a task with route `r` and thread id `k` may return `a`.
  pub data Turn (Does : R → String → A → Type 0) (l : Loop R A) : Loop R A → Type 0 where
    submits :
        (now : ℕ) (thid : String) (route : R)
        → IsFree thid l.pending
        → Turn Does l (submit now thid route l)
    starts :
        (now : ℕ) (t : Task R) (before after : List (Task R))
        → l.pending ≡ before ++ (t ∷ after)
        → Turn Does l (start now t l)
    finishes :
        (now : ℕ) (t : Task R) (a : A) (before after : List (Task R))
        → l.pending ≡ before ++ (t ∷ after)
        → Does t.route t.thid a
        → Turn Does l (finish now t a (before ++ after) l)
    fails :
        (now : ℕ) (t : Task R) (message : String) (before after : List (Task R))
        → l.pending ≡ before ++ (t ∷ after)
        → Turn Does l (give_up now t message (before ++ after) l)
    polls : (now : ℕ) (thid : String) → Turn Does l (poll_store now thid l)

  pub data Reaches (Does : R → String → A → Type 0) (l : Loop R A) : Loop R A → Type 0 where
    here : Reaches Does l l
    next : {m n : Loop R A} → Reaches Does l m → Turn Does m n → Reaches Does l n
