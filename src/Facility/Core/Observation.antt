-- ===== src/Facility/Core/Observation.antt =====
-- src/threading/detail/TaskFacilityCore.hpp: what the core reports of its records.
use edp_threading.Base.{
  ℕ, suc, zero, ◌+◌, Bool, true, false, not, ◌&&◌, ◌||◌, Option, none, some, ◌==◌, if◌then◌else◌,
  first_index, for_range,
}
use edp_threading.Topology.{Topology, Links, is_some}
use edp_threading.Types.{TaskState}
use edp_threading.Task.Control.{TaskOperationalState, same_state, state, is_cancellation_requested}
use edp_threading.Task.Record.{current_execution_context_index, invalid_context}
use edp_threading.Facility.Core.State.{TaskFacilityCore, links, is_current_incarnation}

abbrev pub public_of : TaskOperationalState → TaskState
public_of TaskOperationalState.queued = TaskState.queued
public_of TaskOperationalState.running = TaskState.running
public_of TaskOperationalState.running_cancel_requested = TaskState.running
public_of TaskOperationalState.completed = TaskState.completed
public_of TaskOperationalState.cancelled = TaskState.cancelled
public_of TaskOperationalState.unnamed = TaskState.cancelled

abbrev pub terminal : TaskState → Bool
terminal TaskState.completed = true
terminal TaskState.cancelled = true
terminal _ = false

abbrev pub is_work : TaskOperationalState → Bool
is_work TaskOperationalState.queued = true
is_work TaskOperationalState.running = true
is_work TaskOperationalState.running_cancel_requested = true
is_work _ = false

-- The loop of QueuedTasks over the links, on fuel: `none` says that it has not ended.
unfoldable pub count_queued : ℕ → Links → Option ℕ → ℕ → Option ℕ
count_queued fuel l none n = some n
count_queued zero l (some i) n = none
count_queued (suc fuel) l (some i) n = count_queued fuel l (l i) (n + 1)

module _ (t : Topology) where
  -- PublicState.
  unfoldable pub public_state : TaskFacilityCore t → ℕ → Bool → TaskState
  public_state c i p =
      if is_current_incarnation t c i p
      then public_of (state (c.records i).control)
      else TaskState.cancelled

  -- IsTerminal.
  unfoldable pub is_terminal : TaskFacilityCore t → ℕ → Bool → Bool
  unfolding public_state
  is_terminal c i p = terminal (public_state c i p)

  abbrev pub granted_in : TaskOperationalState → ℕ → Bool
  granted_in TaskOperationalState.queued context = false
  granted_in TaskOperationalState.cancelled context = not (context == invalid_context t)
  granted_in _ context = true

  -- HasWorkerGrant.
  unfoldable pub has_worker_grant : TaskFacilityCore t → ℕ → Bool → Bool
  has_worker_grant c i p =
      if is_current_incarnation t c i p
      then granted_in (state (c.records i).control)
          (current_execution_context_index t (c.records i))
      else false

  -- How many records are allocated.
  unfoldable pub records_in_use : TaskFacilityCore t → ℕ
  records_in_use c =
      for_range t.records 0 (λ i n. if t.availability.is_set c.availability i then n else n + 1) 0

  abbrev pub holds_work : TaskFacilityCore t → ℕ → Bool
  holds_work c i =
      if t.availability.is_set c.availability i
      then false
      else is_work (state (c.records i).control)

  -- HasExecutionWork.
  unfoldable pub has_execution_work : TaskFacilityCore t → Bool
  unfolding first_index
  has_execution_work c = is_some (first_index t.records 0 (holds_work c))

  -- QueuedTasks. Its fuel is the record capacity.
  unfoldable pub queued_tasks : TaskFacilityCore t → Option ℕ
  unfolding count_queued
  queued_tasks c = count_queued t.records (links t c.records) (t.queue.head c.ends) 0

  -- IsCancellationRequested.
  unfoldable pub is_task_cancellation_requested : TaskFacilityCore t → ℕ → Bool → Bool
  is_task_cancellation_requested c i p =
      is_current_incarnation t c i p && is_cancellation_requested (c.records i).control

  -- ExecutionContextFor.
  unfoldable pub execution_context_for : TaskFacilityCore t → ℕ → Bool → Option ℕ
  execution_context_for c i p =
      if is_current_incarnation t c i p
      then (if same_state (state (c.records i).control) TaskOperationalState.running
            || same_state (state (c.records i).control)
                TaskOperationalState.running_cancel_requested
          then some (current_execution_context_index t (c.records i))
          else none)
      else none

  -- IsCancellationRequestedForContext.
  unfoldable pub is_cancellation_requested_for_context : TaskFacilityCore t → ℕ → Bool
  unfolding first_index
  is_cancellation_requested_for_context c context = is_some (
      first_index t.records 0 λ i.
        same_state (state (c.records i).control) TaskOperationalState.running_cancel_requested
        && current_execution_context_index t (c.records i) == context)
