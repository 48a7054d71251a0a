-- ===== src/Runtime/Dispatch/Loop.antt =====
-- src/threading/detail/TaskFacilityRuntime.hpp: the loop of Dispatch, with its waits.
use edp_threading.Base.{ℕ, zero, suc, Bool, true, false, Option, none, some, if◌then◌else◌}
use edp_threading.Topology.{Topology}
use edp_threading.Types.{TaskDispatchStatus, TaskDispatchPolicy}
use edp_threading.Task.Payload.{Adapter}
use edp_threading.Wait.Budget.{MonotonicWaitBudget, ℤ}
use edp_threading.Facility.Core.{TaskRecordBinding}
use edp_threading.Runtime.{Router, TaskFacilityRuntime}
use edp_threading.Runtime.Completion.{Mutex}
use edp_threading.Runtime.Waiting.{
  Surroundings, acquire_after, wait_for_admission_capacity, wait_for_worker_grant,
}
use edp_threading.Runtime.Dispatch.{
  TaskDispatchResult, DispatchTurn, dispatch_turn, dispatch_budget,
}

module _ {W : Type 0} (t : Topology) (waiter_capacity : ℕ) (router : Router W) (mutex : Mutex W)
    (around : Surroundings t W) (policy : TaskDispatchPolicy) (f : ℕ) (a : Adapter) (timeout : ℤ)
    (waiting : ℕ) where
  -- A turn, after a status of a wait for a free record.
  abbrev pub capacity_turn :
      Option (TaskFacilityRuntime t W × TaskDispatchStatus) → DispatchTurn (TaskFacilityRuntime t W)
  capacity_turn none = DispatchTurn.stuck
  capacity_turn (some (rt, TaskDispatchStatus.succeeded)) = DispatchTurn.again rt
  capacity_turn (some (rt, other)) = DispatchTurn.returned rt (TaskDispatchResult.status other)

  abbrev pub grant_turn :
      TaskRecordBinding
      → Option (TaskFacilityRuntime t W × TaskDispatchStatus)
      → DispatchTurn (TaskFacilityRuntime t W)
  grant_turn b none = DispatchTurn.stuck
  grant_turn b (some (rt, TaskDispatchStatus.succeeded)) =
      DispatchTurn.returned rt (TaskDispatchResult.task b)
  grant_turn b (some (rt, other)) = DispatchTurn.returned rt (TaskDispatchResult.status other)

  -- The wait that a turn asks for, on the context of the caller.
  abbrev pub wait_turn :
      MonotonicWaitBudget
      → Option ℕ
      → DispatchTurn (TaskFacilityRuntime t W)
      → DispatchTurn (TaskFacilityRuntime t W)
  wait_turn budget (some context) (DispatchTurn.record_wanted rt) =
      capacity_turn (
        wait_for_admission_capacity t waiter_capacity router mutex around context budget waiting rt)
  wait_turn budget (some context) (DispatchTurn.worker_wanted rt b) =
      grant_turn b
        (wait_for_worker_grant t waiter_capacity router mutex around context b budget waiting rt)
  wait_turn budget context turn = turn

  abbrev pub is_managed : Option ℕ → Bool
  is_managed none = false
  is_managed (some context) = true

  -- A turn of the loop of Dispatch.
  unfoldable pub dispatch_step :
      MonotonicWaitBudget → TaskFacilityRuntime t W → DispatchTurn (TaskFacilityRuntime t W)
  unfolding dispatch_turn wait_for_admission_capacity wait_for_worker_grant
  dispatch_step budget rt =
      let (rt', acquired) = acquire_after t waiter_capacity router mutex around rt in
      if acquired
      then wait_turn budget router.current_context_index (
          dispatch_turn t waiter_capacity router mutex policy
            (is_managed router.current_context_index) f a rt')
      else DispatchTurn.returned rt' (TaskDispatchResult.status TaskDispatchStatus.interrupted)

  -- The loop of Dispatch, on fuel: `none` says that it has not ended.
  unfoldable pub dispatch_loop :
      ℕ
      → MonotonicWaitBudget
      → TaskFacilityRuntime t W
      → Option (TaskFacilityRuntime t W × TaskDispatchResult)
  unfolding dispatch_step
  dispatch_loop zero budget rt = none
  dispatch_loop (suc fuel) budget rt = elim (dispatch_step budget rt) [
    | DispatchTurn.returned rt' result ↦ some (rt', result)
    | DispatchTurn.again rt' ↦ dispatch_loop fuel budget rt'
    | _ ↦ none
  ]

  -- Dispatch; `waiting` is the fuel of each of its waits.
  unfoldable pub dispatch :
      ℕ → TaskFacilityRuntime t W → Option (TaskFacilityRuntime t W × TaskDispatchResult)
  unfolding dispatch_loop dispatch_budget
  dispatch fuel rt =
      dispatch_loop fuel (dispatch_budget policy timeout (around.monotonic_now rt.world)) rt
