-- ===== src/Runtime/Dispatch.antt =====
-- src/threading/detail/TaskFacilityRuntime.hpp: a turn of Dispatch under the lock.
pub mod Direct
pub mod Laws
pub mod Loop
use edp_threading.Base.{
  ℕ, zero, suc, Bool, true, false, not, ◌&&◌, ◌||◌, ◌==◌, Option, none, some, if◌then◌else◌,
}
use edp_threading.Topology.{Topology}
use edp_threading.Types.{TaskDispatchStatus, TaskDispatchPolicy}
use edp_threading.Task.Payload.{Adapter}
use edp_threading.Lifecycle.{Outcome, is_success}
use edp_threading.Worker.{WorkerAvailabilityResult, mark_available, is_any_available}
use edp_threading.Wait.Budget.{MonotonicWaitBudget, ℤ, for_duration, forever_budget}
use edp_threading.Facility.Core.{
  TaskFacilityCore, TaskRecordBinding, TaskAdmissionCoreResult, admit, has_record_capacity,
  has_worker_grant, queued_tasks,
}
use edp_threading.Runtime.{Router, TaskFacilityRuntime, schedule_available_workers}
use edp_threading.Runtime.Completion.{Mutex, is_available}
use edp_threading.Runtime.Handles.{unlock, withdraw_unreturned_dispatch}
use edp_threading.Runtime.Waiting.{
  Surroundings, acquire_after, wait_for_admission_capacity, wait_for_worker_grant,
}

-- A dispatch gives the Task, known by its binding, or a status.
pub data TaskDispatchResult : Type 0 where
  task : TaskRecordBinding → TaskDispatchResult
  status : TaskDispatchStatus → TaskDispatchResult

-- How a turn of Dispatch leaves the lock: with a result, to wait for a free record, to wait for a
-- Worker, to try again, or in a scheduling pass or a count that does not end.
pub data DispatchTurn (S : Type 0) : Type 0 where
  returned : S → TaskDispatchResult → DispatchTurn S
  record_wanted : S → DispatchTurn S
  worker_wanted : S → TaskRecordBinding → DispatchTurn S
  again : S → DispatchTurn S
  stuck : DispatchTurn S

abbrev pub is_abandoning : TaskDispatchPolicy → Bool
is_abandoning TaskDispatchPolicy.abandon_immediately = true
is_abandoning _ = false

abbrev pub is_timed : TaskDispatchPolicy → Bool
is_timed TaskDispatchPolicy.queue_with_timeout = true
is_timed _ = false

-- The budget of a dispatch that begins at the instant `now`.
unfoldable pub dispatch_budget : TaskDispatchPolicy → ℤ → ℕ → MonotonicWaitBudget
unfolding for_duration forever_budget
dispatch_budget policy timeout now =
    if is_timed policy then for_duration timeout now else forever_budget

-- Whether a count is zero, if it ends.
abbrev pub is_nothing : Option ℕ → Option Bool
is_nothing none = none
is_nothing (some n) = some (n == 0)

module _ {W : Type 0} (t : Topology) (waiter_capacity : ℕ) (router : Router W)
    (mutex : Mutex W) where
  abbrev pub give_up :
      TaskFacilityRuntime t W
      → TaskRecordBinding
      → TaskDispatchStatus
      → DispatchTurn (TaskFacilityRuntime t W)
  give_up rt b why =
      DispatchTurn.returned
        (unlock t waiter_capacity router mutex
          (withdraw_unreturned_dispatch t waiter_capacity router mutex rt b).0)
        (TaskDispatchResult.status why)

  -- After the scheduling pass of an admitted Task; `managed` is whether the caller has a context.
  unfoldable pub after_schedule :
      TaskDispatchPolicy
      → Bool
      → TaskRecordBinding
      → TaskFacilityRuntime t W × Outcome
      → DispatchTurn (TaskFacilityRuntime t W)
  unfolding withdraw_unreturned_dispatch
  after_schedule policy managed b (rt, scheduled) =
      let granted = has_worker_grant t rt.core b.record_index b.phase in
      if not (is_success scheduled) && not granted
      then give_up rt b TaskDispatchStatus.interrupted
      else if is_abandoning policy && not granted
      then give_up rt b TaskDispatchStatus.unavailable
      else if not (is_timed policy) || granted
      then DispatchTurn.returned (unlock t waiter_capacity router mutex rt)
          (TaskDispatchResult.task b)
      else if managed
      then DispatchTurn.worker_wanted (unlock t waiter_capacity router mutex rt) b
      else give_up rt b TaskDispatchStatus.interrupted

  abbrev pub scheduled_turn :
      TaskDispatchPolicy
      → Bool
      → TaskRecordBinding
      → Option (TaskFacilityRuntime t W × Outcome)
      → DispatchTurn (TaskFacilityRuntime t W)
  scheduled_turn policy managed b none = DispatchTurn.stuck
  scheduled_turn policy managed b (some out) = after_schedule policy managed b out

  unfoldable pub admitted_turn :
      TaskDispatchPolicy
      → Bool
      → TaskFacilityRuntime t W
      → TaskFacilityCore t × TaskAdmissionCoreResult
      → DispatchTurn (TaskFacilityRuntime t W)
  unfolding after_schedule schedule_available_workers
  admitted_turn policy managed rt (core, TaskAdmissionCoreResult.capacity_unavailable) =
      DispatchTurn.again (unlock t waiter_capacity router mutex (record rt { core = core }))
  admitted_turn policy managed rt (core, TaskAdmissionCoreResult.admitted b) =
      scheduled_turn policy managed b
        (schedule_available_workers t waiter_capacity router (record rt { core = core }))

  -- AbandonImmediately goes on only when a Worker is free and no Task is queued.
  abbrev pub abandoned_turn :
      TaskFacilityRuntime t W
      → DispatchTurn (TaskFacilityRuntime t W)
      → Option Bool
      → DispatchTurn (TaskFacilityRuntime t W)
  abandoned_turn rt next none = DispatchTurn.stuck
  abandoned_turn rt next (some nothing_queued) =
      if not (is_any_available t rt.workers) || not nothing_queued
      then DispatchTurn.returned (unlock t waiter_capacity router mutex rt)
          (TaskDispatchResult.status TaskDispatchStatus.unavailable)
      else next

  -- A turn of Dispatch, under the lock.
  unfoldable pub dispatch_turn :
      TaskDispatchPolicy
      → Bool
      → ℕ
      → Adapter
      → TaskFacilityRuntime t W
      → DispatchTurn (TaskFacilityRuntime t W)
  unfolding admitted_turn has_record_capacity queued_tasks
  dispatch_turn policy managed f a rt =
      let next = admitted_turn policy managed rt (admit t rt.core f a) in
      if not (has_record_capacity t rt.core)
      then (if is_abandoning policy
          then DispatchTurn.returned (unlock t waiter_capacity router mutex rt)
              (TaskDispatchResult.status TaskDispatchStatus.unavailable)
          else if managed
          then DispatchTurn.record_wanted (unlock t waiter_capacity router mutex rt)
          else DispatchTurn.returned (unlock t waiter_capacity router mutex rt)
              (TaskDispatchResult.status TaskDispatchStatus.interrupted))
      else if is_abandoning policy
      then abandoned_turn rt next (is_nothing (queued_tasks t rt.core))
      else next
