-- ===== src/Runtime/Handles/Frame.antt =====
-- Waking contexts leaves the core, and a reclamation keeps it well formed.
use edp_threading.Base.{ℕ, ◌≡◌, refl, Bool, true, false, Option, none, some, Bool-cases, inl, inr}
use edp_threading.Topology.{Topology}
use edp_threading.Facility.Core.{TaskRecordBinding, TaskCancellationCoreResult}
use edp_threading.Runtime.{Router, TaskFacilityRuntime}
use edp_threading.Runtime.Completion.{Mutex}
use edp_threading.Runtime.Handles.{
  wake_waiters_of, wake_context, wake_if, notify_cancelled, is_accepted,
}

module _ {W : Type 0} (t : Topology) (waiter_capacity : ℕ) (router : Router W)
    (mutex : Mutex W) where
  pub wake_waiters_of-core :
      (rt : TaskFacilityRuntime t W) (b : TaskRecordBinding)
      → (wake_waiters_of t waiter_capacity router mutex rt b).0.core ≡ rt.core
  unfolding wake_waiters_of
  wake_waiters_of-core rt b = refl

  pub wake_context-core :
      (rt : TaskFacilityRuntime t W) (context : Option ℕ)
      → (wake_context t waiter_capacity router mutex rt context).0.core ≡ rt.core
  wake_context-core rt none = refl
  wake_context-core rt (some context) = refl

  pub wake_if-core :
      (wakes : Bool) (rt : TaskFacilityRuntime t W) (b : TaskRecordBinding)
      → (wake_if t waiter_capacity router mutex wakes rt b).0.core ≡ rt.core
  wake_if-core true rt b = wake_waiters_of-core rt b
  wake_if-core false rt b = refl

  pub notify_cancelled-core :
      (rt : TaskFacilityRuntime t W) (b : TaskRecordBinding) (r : TaskCancellationCoreResult)
      (running : Option ℕ)
      → (notify_cancelled t waiter_capacity router mutex rt b r running).core ≡ rt.core
  notify_cancelled-core rt b r running = elim (Bool-cases r.terminal_published) [
    | inl published ↦ rw published (wake_waiters_of-core rt b)
    | inr still ↦ elim (Bool-cases (is_accepted r.result)) [
      | inl accepted ↦ rw (still, accepted) (wake_context-core rt running)
      | inr refused ↦ rw (still, refused) refl
    ]
  ]
