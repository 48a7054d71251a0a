-- ===== src/Runtime/Waiting/Ends.antt =====
-- src/threading/detail/TaskFacilityRuntime.hpp: why and when the waits of a facility return.
use edp_threading.Base.{ℕ, ◌<◌, ◌-◌, ◌≡◌, ◌⊎◌, refl, ap, Bool, true, false, none, some}
use edp_threading.Topology.{Topology}
use edp_threading.Types.{TaskWaitResult, TaskDispatchStatus}
use edp_threading.Wait.Budget.{MonotonicWaitBudget}
use edp_threading.Wait.Loop.{Target, Verdict, Course, wait_until}
use edp_threading.Wait.Loop.Justified.{Justified}
use edp_threading.Wait.Loop.Justified.Run.{wait_until-Justified}
use edp_threading.Wait.Loop.Termination.{Passes}
use edp_threading.Task.Control.{TaskOperationalState, state}
use edp_threading.Facility.Core.{
  TaskFacilityCore, TaskRecordBinding, is_current_incarnation, is_terminal,
}
use edp_threading.Runtime.{Router, TaskFacilityRuntime}
use edp_threading.Runtime.Completion.{Mutex}
use edp_threading.Runtime.Waiting.{
  Surroundings, environment, asked_to_stop, task_finishes, worker_is_granted, wait_result,
  dispatch_status, answered, wait_for_worker_grant,
}

-- The states of a Task that has not finished.
abbrev pub IsPending : TaskOperationalState → Type 0
IsPending s =
    (s ≡ TaskOperationalState.queued)
    ⊎ (s ≡ TaskOperationalState.running)
    ⊎ (s ≡ TaskOperationalState.running_cancel_requested)

-- What the predicate of a wait for a Task tells of a core.
abbrev pub TestsTerminal : Topology → Type 0
TestsTerminal t =
    (c : TaskFacilityCore t) (i : ℕ) (p : Bool)
    → ((is_terminal t c i p ≡ true)
        × ((is_current_incarnation t c i p ≡ false) ⊎ (¬ IsPending (state (c.records i).control))))
      ⊎ ((is_terminal t c i p ≡ false)
          × (is_current_incarnation t c i p ≡ true)
          × IsPending (state (c.records i).control))

module _ {W : Type 0} (t : Topology) (waiter_capacity : ℕ) (router : Router W) (mutex : Mutex W)
    (around : Surroundings t W) (budget : MonotonicWaitBudget) (end fuel : ℕ) where
  -- The clock passes on in a wait for a target.
  abbrev pub Time : Target (TaskFacilityRuntime t W) → ℕ → Type 0
  Time target context =
      Passes (environment t waiter_capacity router mutex around) target context budget end

  -- A result that a wait for a target, from a state, has a reason for.
  abbrev pub Waited :
      {A : Type 0}
      → Target (TaskFacilityRuntime t W)
      → ℕ
      → (Verdict → A)
      → TaskFacilityRuntime t W
      → TaskFacilityRuntime t W × A
      → Type 0
  Waited target context result start out =
      (verdict : Verdict) × (out.1 ≡ result verdict)
      × Justified (environment t waiter_capacity router mutex around) target context budget start
          (out.0, verdict)

  answered-Waited :
      {A : Type 0} (target : Target (TaskFacilityRuntime t W)) (context : ℕ) (result : Verdict → A)
      (course : Course) (rt : TaskFacilityRuntime t W)
      → Time target context
      → end - around.monotonic_now rt.world < fuel
      → (out : TaskFacilityRuntime t W × A) × (answered t waiter_capacity router mutex around result
            (wait_until
              (environment t waiter_capacity router mutex around)
              target
              context
              budget
              course
              fuel
              rt)
          ≡ some out)
        × Waited target context result rt out
  answered-Waited target context result course rt time enough =
      let env = environment t waiter_capacity router mutex around in
      let (r, e, why) =
        wait_until-Justified env target context budget rt end time course fuel enough in
      (
        (r.0, result r.1),
        ap (answered t waiter_capacity router mutex around result) e,
        (r.1, refl, why),
      )

  -- What WaitWithBudget returns.
  abbrev pub WaitsForTask :
      TaskRecordBinding
      → TaskFacilityRuntime t W
      → TaskFacilityRuntime t W × TaskWaitResult
      → Type 0
  WaitsForTask b rt out =
      ((router.current_context_index ≡ none) × (out ≡ (rt, TaskWaitResult.interrupted)))
      ⊎ ((context : ℕ) × (router.current_context_index ≡ some context)
          × (((out.1 ≡ TaskWaitResult.interrupted)
                × ((around.is_interrupted context rt.world).1 ≡ true))
              ⊎ Waited (task_finishes t waiter_capacity router mutex around b context) context
                  (wait_result t waiter_capacity router mutex around)
                  (asked_to_stop t waiter_capacity router mutex around context rt).0 out))

  -- A wait for a Worker with a deadline returns, when the clock does not go back, each wait of the
  -- platform takes time and no time is left of the budget from an instant on. It answers Succeeded
  -- only when it saw under the lock that the Task had a Worker; otherwise the Task is withdrawn,
  -- unless the lock was refused.
  pub wait_for_worker_grant-total :
      (context : ℕ) (b : TaskRecordBinding) (rt : TaskFacilityRuntime t W)
      → Time (worker_is_granted t waiter_capacity router mutex around b context) context
      → end - around.monotonic_now rt.world < fuel
      → (out : TaskFacilityRuntime t W × TaskDispatchStatus) × (wait_for_worker_grant t
            waiter_capacity router mutex around context b budget fuel rt
          ≡ some out)
        × Waited
            (worker_is_granted t waiter_capacity router mutex around b context)
            context
            (dispatch_status t waiter_capacity router mutex around)
            rt
            out
  unfolding wait_for_worker_grant
  wait_for_worker_grant-total context b rt time enough =
      answered-Waited (worker_is_granted t waiter_capacity router mutex around b context) context
        (dispatch_status t waiter_capacity router mutex around) Course.locked rt time enough
