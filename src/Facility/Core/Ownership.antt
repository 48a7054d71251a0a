-- ===== src/Facility/Core/Ownership.antt =====
-- src/threading/detail/TaskFacilityCore.hpp: cancellation, release of the owner's interest, result
-- extraction, reclamation and the traversal of allocated records.
use edp_threading.Base.{
  ℕ, Bool, true, false, not, ◌&&◌, ◌||◌, Option, none, some, if◌then◌else◌, update, for_range,
}
use edp_threading.Topology.{Topology}
use edp_threading.Types.{TaskCancelResult, TaskTakeStatus}
use edp_threading.Task.Control.{
  TaskOperationalState, same_state, state, has_owner, set_state, compare_exchange_state,
  release_owner,
}
use edp_threading.Task.Payload.{
  Adapter, Payload, destroy_callable, destroy_result, move_result, through,
}
use edp_threading.Task.Record.{set_queue_next, set_execution_context_index, invalid_context}
use edp_threading.Facility.Core.State.{
  TaskReleaseEffect, TaskReclaimResult, TaskRecordBinding, TaskCancellationCoreResult,
  TaskFacilityCore, set_record, queue_remove, is_current_incarnation, binding,
}

abbrev pub cancellation : TaskCancelResult → Bool → TaskCancellationCoreResult
cancellation r b = record { result = r; terminal_published = b }

module _ (t : Topology) where
  -- A queued Task is withdrawn: out of the queue, its callable destroyed, and marked as never
  -- granted.
  unfoldable pub withdraw_queued : TaskFacilityCore t → ℕ → TaskFacilityCore t
  withdraw_queued c i =
      let d = queue_remove t c i in
      let r = d.records i in
      set_record t d i
        (record (set_execution_context_index t
          (record r { payload = through r.operations (λ a. destroy_callable r.payload) })
          (invalid_context t)) { control = set_state r.control TaskOperationalState.cancelled })

  abbrev pub cancel_in :
      TaskFacilityCore t
      → ℕ
      → TaskOperationalState
      → TaskFacilityCore t × TaskCancellationCoreResult
  cancel_in c i TaskOperationalState.queued =
      (withdraw_queued c i, cancellation TaskCancelResult.accepted true)
  cancel_in c i TaskOperationalState.running =
      let r = c.records i in
      (
        set_record t c i (record r {
          control =
              (compare_exchange_state r.control TaskOperationalState.running
                TaskOperationalState.running_cancel_requested).0;
        }),
        cancellation TaskCancelResult.accepted false,
      )
  cancel_in c i TaskOperationalState.running_cancel_requested =
      (c, cancellation TaskCancelResult.accepted false)
  cancel_in c i _ = (c, cancellation TaskCancelResult.already_finished false)

  -- Cancel.
  unfoldable pub cancel :
      TaskFacilityCore t → ℕ → Bool → TaskFacilityCore t × TaskCancellationCoreResult
  cancel c i p =
      if is_current_incarnation t c i p
      then cancel_in c i (state (c.records i).control)
      else (c, cancellation TaskCancelResult.already_finished false)

  abbrev pub release_in :
      TaskFacilityCore t → ℕ → TaskOperationalState → TaskFacilityCore t × TaskReleaseEffect
  release_in c i TaskOperationalState.queued =
      let d = withdraw_queued c i in
      let r = d.records i in
      (
        set_record t d i (record r { control = release_owner r.control }),
        TaskReleaseEffect.terminal_published,
      )
  release_in c i TaskOperationalState.completed =
      let r = c.records i in
      (
        set_record t c i (record r {
          payload = through r.operations (λ a. destroy_result a r.payload);
          control = release_owner r.control;
        }),
        TaskReleaseEffect.ownership_released,
      )
  release_in c i TaskOperationalState.unnamed = (c, TaskReleaseEffect.ownership_released)
  release_in c i _ =
      let r = c.records i in
      (
        set_record t c i (record r { control = release_owner r.control }),
        TaskReleaseEffect.ownership_released,
      )

  -- ReleaseOwner.
  unfoldable pub release_task_owner :
      TaskFacilityCore t → ℕ → Bool → TaskFacilityCore t × TaskReleaseEffect
  release_task_owner c i p =
      if is_current_incarnation t c i p
      then release_in c i (state (c.records i).control)
      else (c, TaskReleaseEffect.ownership_released)

  -- A take gives the new core, the status, and what was moved to the destination.
  abbrev pub Taken : Type 0
  Taken = TaskFacilityCore t × TaskTakeStatus × Option ℕ

  unfoldable pub take_completed : TaskFacilityCore t → ℕ → Option Adapter → Taken
  take_completed c i none =
      let r = c.records i in
      (
        set_record t c i
            (record r { payload = Payload.corrupt; control = release_owner r.control }),
        TaskTakeStatus.succeeded,
        none,
      )
  take_completed c i (some a) =
      let r = c.records i in
      let (p, moved) = move_result a r.payload in
      (
        set_record t c i (record r { payload = p; control = release_owner r.control }),
        TaskTakeStatus.succeeded,
        moved,
      )

  abbrev pub take_in : TaskFacilityCore t → ℕ → TaskOperationalState → Taken
  take_in c i TaskOperationalState.completed = take_completed c i (c.records i).operations
  take_in c i TaskOperationalState.cancelled = (c, TaskTakeStatus.cancelled, none)
  take_in c i _ = (c, TaskTakeStatus.not_completed, none)

  -- TakeResult.
  unfoldable pub take_result : TaskFacilityCore t → ℕ → Bool → Taken
  unfolding take_completed
  take_result c i p =
      if is_current_incarnation t c i p
      then take_in c i (state (c.records i).control)
      else (c, TaskTakeStatus.not_completed, none)

  -- IsOwnerlessTerminal.
  unfoldable pub is_ownerless_terminal : TaskFacilityCore t → ℕ → Bool → Bool
  is_ownerless_terminal c i p =
      if is_current_incarnation t c i p
      then not (has_owner (c.records i).control)
        && (same_state (state (c.records i).control) TaskOperationalState.completed
            || same_state (state (c.records i).control) TaskOperationalState.cancelled)
      else false

  -- Reclaim.
  unfoldable pub reclaim : TaskFacilityCore t → ℕ → Bool → TaskFacilityCore t × TaskReclaimResult
  unfolding is_ownerless_terminal
  reclaim c i p =
      if not (is_ownerless_terminal c i p) || t.availability.is_set c.availability i
      then (c, TaskReclaimResult.not_eligible)
      else (
        record c {
          records =
              update c.records i
                (set_queue_next t (record (c.records i) { operations = none }) none);
          availability = (t.availability.set c.availability i).0;
        },
        TaskReclaimResult.reclaimed,
      )

  -- VisitAllocated: the visitor works on a state `S` that contains the core, which it may change.
  unfoldable pub visit_allocated :
      {S : Type 0} → (S → TaskFacilityCore t) → (TaskRecordBinding → S → S) → S → S
  unfolding for_range
  visit_allocated core visitor s =
      for_range t.records 0
        (λ i s.
          if t.availability.is_set (core s).availability i
          then s
          else visitor (binding t (core s) i) s)
        s
