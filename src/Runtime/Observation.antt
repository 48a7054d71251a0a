-- ===== src/Runtime/Observation.antt =====
-- src/threading/detail/TaskFacilityRuntime.hpp: what the facility reports under its lock, and what it
-- answers when the lock is refused.
use edp_threading.Base.{ℕ, Bool, true, false, not, Option, none, some, if◌then◌else◌}
use edp_threading.Topology.{Topology}
use edp_threading.Types.{TaskState}
use edp_threading.Worker.{in_use_count}
use edp_threading.Facility.Core.{
  TaskRecordBinding, public_state, is_task_cancellation_requested,
  is_cancellation_requested_for_context, assigned_task_for_context, has_execution_work,
  records_in_use, queued_tasks,
}
use edp_threading.Runtime.{Router, TaskFacilityRuntime}
use edp_threading.Runtime.Completion.{Mutex}
use edp_threading.Runtime.Handles.{unlock, under_lock}

pub data TaskFacilitySynchronizationResult : Type 0 where
  ready provider_failure : TaskFacilitySynchronizationResult

module _ {W : Type 0} (t : Topology) (waiter_capacity : ℕ) (router : Router W)
    (mutex : Mutex W) where
  -- An observation under the lock, which is released, or what is answered without it.
  abbrev pub observe :
      {A : Type 0}
      → (TaskFacilityRuntime t W → A)
      → A
      → TaskFacilityRuntime t W
      → TaskFacilityRuntime t W × A
  observe seen fallback rt =
      under_lock t waiter_capacity router mutex
        (λ rt'. (unlock t waiter_capacity router mutex rt', seen rt')) fallback rt

  -- State.
  unfoldable pub state_of :
      TaskFacilityRuntime t W → TaskRecordBinding → TaskFacilityRuntime t W × TaskState
  state_of rt b =
      observe (λ rt'. public_state t rt'.core b.record_index b.phase) TaskState.cancelled rt

  -- IsCancellationRequested.
  unfoldable pub is_cancellation_requested_of :
      TaskFacilityRuntime t W → TaskRecordBinding → TaskFacilityRuntime t W × Bool
  is_cancellation_requested_of rt b =
      observe (λ rt'. is_task_cancellation_requested t rt'.core b.record_index b.phase) true rt

  -- IsCancellationRequestedForContext.
  unfoldable pub is_context_cancellation_requested :
      TaskFacilityRuntime t W → ℕ → TaskFacilityRuntime t W × Bool
  is_context_cancellation_requested rt context =
      observe (λ rt'. is_cancellation_requested_for_context t rt'.core context) true rt

  -- AssignedTaskForContext.
  unfoldable pub assigned_task :
      TaskFacilityRuntime t W → ℕ → TaskFacilityRuntime t W × Option TaskRecordBinding
  assigned_task rt context = observe (λ rt'. assigned_task_for_context t rt'.core context) none rt

  -- IsExecutionQuiescent.
  unfoldable pub is_execution_quiescent : TaskFacilityRuntime t W → TaskFacilityRuntime t W × Bool
  is_execution_quiescent rt = observe (λ rt'. not (has_execution_work t rt'.core)) false rt

  -- WorkersInUse.
  unfoldable pub workers_in_use : TaskFacilityRuntime t W → TaskFacilityRuntime t W × ℕ
  workers_in_use rt = observe (λ rt'. in_use_count t rt'.workers) t.workers rt

  -- RecordsInUse.
  unfoldable pub records_in_use_of : TaskFacilityRuntime t W → TaskFacilityRuntime t W × ℕ
  records_in_use_of rt = observe (λ rt'. records_in_use t rt'.core) t.records rt

  -- QueuedTasks; `none` says that the count has not ended.
  unfoldable pub queued_tasks_of : TaskFacilityRuntime t W → TaskFacilityRuntime t W × Option ℕ
  queued_tasks_of rt = observe (λ rt'. queued_tasks t rt'.core) (some t.records) rt

  -- ValidateSynchronization; `try_acquire` is an acquisition that does not wait.
  unfoldable pub validate_synchronization :
      (W → W × Bool)
      → TaskFacilityRuntime t W
      → TaskFacilityRuntime t W × TaskFacilitySynchronizationResult
  validate_synchronization try_acquire rt =
      let (w, acquired) = try_acquire rt.world in
      let (w', released) = mutex.release w in
      if acquired
      then (
        record rt { world = w' },
        if released
            then TaskFacilitySynchronizationResult.ready
            else TaskFacilitySynchronizationResult.provider_failure,
      )
      else (record rt { world = w }, TaskFacilitySynchronizationResult.provider_failure)
