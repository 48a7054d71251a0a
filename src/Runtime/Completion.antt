-- ===== src/Runtime/Completion.antt =====
-- src/threading/detail/TaskFacilityRuntime.hpp: the end of a Worker's Task, in CompleteWorkerTask,
-- and the reclamation of a record that no waiter retains.
pub mod Effects
pub mod Handover
pub mod Reclaiming
use edp_threading.Base.{
  ℕ, zero, suc, Bool, true, false, not, ◌&&◌, ◌||◌, Option, none, some, ◌==◌, if◌then◌else◌,
}
use edp_threading.Topology.{Topology}
use edp_threading.Task.Control.{TaskInvocationOutcome}
use edp_threading.Lifecycle.{Outcome, is_success, first_failure}
use edp_threading.Worker.{WorkerAvailabilityResult, mark_available}
use edp_threading.Wait.Registration.{
  TaskWaitRegistration, AdmissionWaitRegistration, RegistrationSet, task_wait, admission_wait,
  inactive_context, visit_active, matching_count,
}
use edp_threading.Facility.Core.{
  TaskFacilityCore, TaskRecordBinding, TaskReclaimResult, is_ownerless_terminal, reclaim,
  publish_invocation_outcome,
}
use edp_threading.Runtime.{
  Router, TaskFacilityRuntime, Scheduled, matches, wake_matching_waiters,
  schedule_available_workers,
}

-- The facility's mutex: whether it is acquired, and whether it is released.
pub record Mutex (W : Type 0) : Type 0 where
  pub acquire : W → W × Bool
  pub release : W → W × Bool

pub data TaskFacilityCompletionResult : Type 0 where
  completed provider_failure : TaskFacilityCompletionResult

abbrev pub is_reclaim_failure : TaskReclaimResult → Bool
is_reclaim_failure TaskReclaimResult.provider_failure = true
is_reclaim_failure _ = false

abbrev pub is_available : WorkerAvailabilityResult → Bool
is_available WorkerAvailabilityResult.available = true
is_available _ = false

module _ {W : Type 0} (t : Topology) (waiter_capacity : ℕ) (router : Router W)
    (mutex : Mutex W) where
  -- WakeAdmissionWaiters.
  unfoldable pub wake_admission_waiters :
      RegistrationSet AdmissionWaitRegistration
      → W
      → RegistrationSet AdmissionWaitRegistration × (W × Outcome)
  unfolding visit_active
  wake_admission_waiters waiters w =
      visit_active (admission_wait (inactive_context t.index t.contexts)) waiter_capacity
        {S = W × Outcome}
        (λ r at.
          let (w', o) = router.wake r.waiting_context_index at.0 in (r, (w', first_failure at.1 o)))
        (waiters, (w, Outcome.succeeded))

  -- MatchingWaiterCount.
  unfoldable pub matching_waiter_count :
      RegistrationSet TaskWaitRegistration → TaskRecordBinding → ℕ
  unfolding matching_count
  matching_waiter_count waiters b =
      matching_count (task_wait (inactive_context t.index t.contexts)) waiter_capacity waiters
        (λ r. matches r b)

  unfoldable pub after_reclaim :
      TaskFacilityRuntime t W
      → TaskFacilityCore t × TaskReclaimResult
      → TaskFacilityRuntime t W × TaskReclaimResult
  unfolding wake_admission_waiters
  after_reclaim rt (core, TaskReclaimResult.reclaimed) =
      let (waiters, (w, woken)) = wake_admission_waiters rt.admission_waiters rt.world in
      (
        record rt { core = core; admission_waiters = waiters; world = w },
        if is_success woken
            then TaskReclaimResult.reclaimed
            else TaskReclaimResult.provider_failure,
      )
  after_reclaim rt (core, other) = (record rt { core = core }, other)

  -- ReclaimIfQuiescent.
  unfoldable pub reclaim_if_quiescent :
      TaskFacilityRuntime t W → TaskRecordBinding → TaskFacilityRuntime t W × TaskReclaimResult
  unfolding after_reclaim matching_waiter_count
  reclaim_if_quiescent rt b =
      if not (is_ownerless_terminal t rt.core b.record_index b.phase)
        || not (matching_waiter_count rt.waiters b == 0)
      then (rt, TaskReclaimResult.not_eligible)
      else after_reclaim rt (reclaim t rt.core b.record_index b.phase)

  -- A pass that has not ended stays so; one that has adds its failure to `failed`.
  abbrev pub scheduled_failure :
      Bool → Option (TaskFacilityRuntime t W × Outcome) → Option (TaskFacilityRuntime t W × Bool)
  scheduled_failure failed none = none
  scheduled_failure failed (some (rt, o)) = some (rt, failed || not (is_success o))

  unfoldable pub hand_over :
      TaskFacilityRuntime t W → ℕ → Bool → Option (TaskFacilityRuntime t W × Bool)
  unfolding schedule_available_workers
  hand_over rt context failed =
      let (workers, marked) = mark_available t rt.workers context in
      if is_available marked
      then scheduled_failure failed
          (schedule_available_workers t waiter_capacity router (record rt { workers = workers }))
      else some (record rt { workers = workers }, true)

  -- The end of CompleteWorkerTask.
  abbrev pub released :
      TaskFacilityRuntime t W × Bool → TaskFacilityRuntime t W × TaskFacilityCompletionResult
  released (rt, failed) =
      let (w, done) = mutex.release rt.world in
      (
        record rt { world = w },
        if failed || not done
            then TaskFacilityCompletionResult.provider_failure
            else TaskFacilityCompletionResult.completed,
      )

  abbrev pub release_completed :
      Option (TaskFacilityRuntime t W × Bool)
      → Option (TaskFacilityRuntime t W × TaskFacilityCompletionResult)
  release_completed none = none
  release_completed (some out) = some (released out)

  -- What CompleteWorkerTask does under the lock.
  unfoldable pub complete_locked :
      TaskFacilityRuntime t W
      → ℕ
      → TaskRecordBinding
      → TaskInvocationOutcome
      → Option (TaskFacilityRuntime t W × Bool)
  unfolding reclaim_if_quiescent hand_over wake_matching_waiters
  complete_locked rt context b outcome =
      let (waiters, (w, woken)) =
        wake_matching_waiters t waiter_capacity router rt.waiters b rt.world in
      let (rt', reclamation) =
        reclaim_if_quiescent
          (record rt {
            core = publish_invocation_outcome t rt.core b.record_index b.phase outcome;
            waiters = waiters;
            world = w;
          })
          b in
      hand_over rt' context (not (is_success woken) || is_reclaim_failure reclamation)

  -- CompleteWorkerTask; `none` says that its scheduling pass has not ended.
  unfoldable pub complete_worker_task :
      TaskFacilityRuntime t W
      → ℕ
      → TaskRecordBinding
      → TaskInvocationOutcome
      → Option (TaskFacilityRuntime t W × TaskFacilityCompletionResult)
  unfolding complete_locked
  complete_worker_task rt context b outcome =
      let (w, acquired) = mutex.acquire rt.world in
      if acquired
      then release_completed (complete_locked (record rt { world = w }) context b outcome)
      else some (record rt { world = w }, TaskFacilityCompletionResult.provider_failure)
