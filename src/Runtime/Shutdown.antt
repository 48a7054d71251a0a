-- ===== src/Runtime/Shutdown.antt =====
-- src/threading/detail/TaskFacilityRuntime.hpp: BeginShutdownCancellation, which cancels every
-- allocated Task under the lock.
pub mod Sweep
use edp_threading.Base.{ℕ, Bool, true, false, not, ◌&&◌, ◌||◌, Option, none, some, if◌then◌else◌}
use edp_threading.Topology.{Topology}
use edp_threading.Types.{TaskState}
use edp_threading.Lifecycle.{is_success}
use edp_threading.Facility.Core.{
  TaskRecordBinding, execution_context_for, public_state, cancel, visit_allocated,
}
use edp_threading.Runtime.{Router, TaskFacilityRuntime}
use edp_threading.Runtime.Completion.{Mutex, wake_admission_waiters}
use edp_threading.Runtime.Handles.{wake_waiters_of, wake_context, is_accepted, under_lock}

pub data TaskFacilityShutdownCancellationResult : Type 0 where
  applied provider_failure : TaskFacilityShutdownCancellationResult

abbrev pub is_queued : TaskState → Bool
is_queued TaskState.queued = true
is_queued _ = false

abbrev pub is_cancelled : TaskState → Bool
is_cancelled TaskState.cancelled = true
is_cancelled _ = false

abbrev pub is_executing : TaskState → Bool
is_executing TaskState.running = true
is_executing _ = false

module _ {W : Type 0} (t : Topology) (waiter_capacity : ℕ) (router : Router W)
    (mutex : Mutex W) where
  -- The runtime, and whether a provider has failed.
  abbrev pub Progress : Type 0
  Progress = TaskFacilityRuntime t W × Bool

  -- Whom the cancellation of a Task wakes, by its public state before and after.
  unfoldable pub notify_shutdown :
      TaskFacilityRuntime t W → TaskRecordBinding → TaskState → TaskState → Progress
  unfolding wake_waiters_of
  notify_shutdown rt b before after =
      if is_queued before && is_cancelled after
      then wake_waiters_of t waiter_capacity router mutex rt b
      else if is_executing after
      then wake_context t waiter_capacity router mutex rt
          (execution_context_for t rt.core b.record_index b.phase)
      else (rt, true)

  -- The visitor of an allocated Task.
  unfoldable pub cancel_visited : TaskRecordBinding → Progress → Progress
  unfolding notify_shutdown
  cancel_visited b (rt, failed) =
      let (core, cancellation) = cancel t rt.core b.record_index b.phase in
      let rt' : TaskFacilityRuntime t W = record rt { core = core } in
      let (notified, woken) =
        notify_shutdown rt' b (public_state t rt.core b.record_index b.phase)
          (public_state t core b.record_index b.phase) in
      if is_accepted cancellation.result then (notified, failed || not woken) else (rt', failed)

  -- The traversal of the allocated Tasks.
  unfoldable pub cancel_allocated : TaskFacilityRuntime t W → Progress
  unfolding visit_allocated cancel_visited
  cancel_allocated rt =
      visit_allocated t {S = Progress} (λ at. at.0.core) cancel_visited (rt, false)

  -- What BeginShutdownCancellation does under the lock.
  unfoldable pub shutdown_locked :
      TaskFacilityRuntime t W → TaskFacilityRuntime t W × TaskFacilityShutdownCancellationResult
  unfolding cancel_allocated wake_admission_waiters
  shutdown_locked rt =
      let (rt', failed) = cancel_allocated rt in
      let (waiters, (w, woken)) =
        wake_admission_waiters t waiter_capacity router mutex rt'.admission_waiters rt'.world in
      let (w', done) = mutex.release w in
      (
        record rt' { admission_waiters = waiters; world = w' },
        if failed || not (is_success woken) || not done
            then TaskFacilityShutdownCancellationResult.provider_failure
            else TaskFacilityShutdownCancellationResult.applied,
      )

  -- BeginShutdownCancellation.
  unfoldable pub begin_shutdown_cancellation :
      TaskFacilityRuntime t W → TaskFacilityRuntime t W × TaskFacilityShutdownCancellationResult
  unfolding shutdown_locked
  begin_shutdown_cancellation rt =
      under_lock t waiter_capacity router mutex shutdown_locked
        TaskFacilityShutdownCancellationResult.provider_failure rt
