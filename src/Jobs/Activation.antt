-- ===== src/Jobs/Activation.antt =====
-- src/api/activation-job-store.ts: the store of signing-key activations. Its class has the fields and
-- the bodies of the entity store, at the route and the result of an activation.
use dataspace_ica_ts.Common.{ℕ, String, Option}
use dataspace_ica_ts.Jobs

pub record ActivateRouteContext : Type 0 where
  pub tenant_id : String
  pub jurisdiction : String
  pub sector : String
  pub section : String
  pub format : String
  pub resource_type : String
  pub action : String

module _ (A : Type 0) where
  abbrev pub ActivationJobStore : Type 0
  ActivationJobStore = Jobs.JobStore ActivateRouteContext A

  unfoldable pub enqueue :
      ℕ → String → ActivateRouteContext → ActivationJobStore → ActivationJobStore
  enqueue now thid route s = Jobs.enqueue now thid route s

  unfoldable pub mark_running : ℕ → String → ActivationJobStore → ActivationJobStore
  mark_running now thid s = Jobs.mark_running now thid s

  unfoldable pub mark_succeeded : ℕ → String → A → ActivationJobStore → ActivationJobStore
  mark_succeeded now thid result s = Jobs.mark_succeeded now thid result s

  unfoldable pub mark_failed : ℕ → String → String → ActivationJobStore → ActivationJobStore
  mark_failed now thid message s = Jobs.mark_failed now thid message s

  unfoldable pub fetch :
      ℕ
      → String
      → ActivationJobStore
      → ActivationJobStore × Option (Jobs.Job ActivateRouteContext A)
  fetch now thid s = Jobs.fetch now thid s
