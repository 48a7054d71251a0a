-- ===== src/Runtime.antt =====
-- src/threading/detail/TaskFacilityRuntime.hpp: the scheduling pass over a facility's core, its
-- Worker leases and its waiters. The pass runs under the facility's lock, so it is one sequence of
-- calls; the router, which wakes contexts, is a parameter.
pub mod Fairness
pub mod Completion
pub mod Handles
pub mod Waiting
pub mod Dispatch
pub mod Observation
pub mod Shutdown
use edp_threading.Base.{
  ℕ, zero, suc, Bool, true, false, ◌&&◌, Option, none, some, ◌==◌, ◌=?◌, if◌then◌else◌,
}
use edp_threading.Topology.{Topology}
use edp_threading.Lifecycle.{Outcome, first_failure}
use edp_threading.Worker.{Workers, mark_available, try_claim_specific, try_claim_available}
use edp_threading.Wait.Registration.{
  TaskWaitRegistration, AdmissionWaitRegistration, RegistrationSet, task_wait, inactive_context,
  visit_active,
}
use edp_threading.Facility.Core.{
  TaskFacilityCore, TaskRecordBinding, TaskWorkerClaimResult, claim_next_for_worker, queued_tasks,
}

-- The router as a scheduling pass sees it: the context that the pass runs on, if it is a managed
-- one, and the wake of a context. `provider_failure` is that enumerator of SignalNotifyResult.
pub record Router (W : Type 0) : Type 0 where
  pub current_context_index : Option ℕ
  pub wake : ℕ → W → W × Outcome
  pub provider_failure : ℕ

pub record TaskFacilityRuntime (t : Topology) (W : Type 0) : Type 0 where
  pub core : TaskFacilityCore t
  pub workers : Workers t
  pub waiters : RegistrationSet TaskWaitRegistration
  pub admission_waiters : RegistrationSet AdmissionWaitRegistration
  pub world : W

-- How one turn of the scheduling loop ends; `stuck` is a turn whose count of the queue does not end.
pub data Turn (A : Type 0) : Type 0 where
  finished : A → Turn A
  continued : A → Turn A
  stuck : Turn A

abbrev pub matches : TaskWaitRegistration → TaskRecordBinding → Bool
matches r b = r.record_index == b.record_index && r.phase =? b.phase

module _ {W : Type 0} (t : Topology) (waiter_capacity : ℕ) (router : Router W) where
  abbrev pub Scheduled : Type 0
  Scheduled = TaskFacilityRuntime t W × Outcome

  -- WakeMatchingWaiters; its result is the first failure.
  unfoldable pub wake_matching_waiters :
      RegistrationSet TaskWaitRegistration
      → TaskRecordBinding
      → W
      → RegistrationSet TaskWaitRegistration × (W × Outcome)
  unfolding visit_active
  wake_matching_waiters waiters b w =
      visit_active (task_wait (inactive_context t.index t.contexts)) waiter_capacity
        {S = W × Outcome}
        (λ r at.
          if matches r b
          then (let (w', o) = router.wake r.waiting_context_index at.0 in
              (r, (w', first_failure at.1 o)))
          else (r, at))
        (waiters, (w, Outcome.succeeded))

  abbrev pub claim_current : Workers t → Option ℕ → Workers t × Option ℕ
  claim_current workers none = (workers, none)
  claim_current workers (some context) = try_claim_specific t workers context

  abbrev pub claim_other : Workers t × Option ℕ → Workers t × Option ℕ
  claim_other (workers, none) = try_claim_available t workers
  claim_other (workers, some context) = (workers, some context)

  -- The Worker that the pass runs on comes first, then the lowest free one.
  abbrev pub claim_worker : Workers t → Workers t × Option ℕ
  claim_worker workers = claim_other (claim_current workers router.current_context_index)

  abbrev pub give_back : TaskFacilityRuntime t W → ℕ → TaskFacilityRuntime t W
  give_back rt context = record rt { workers = (mark_available t rt.workers context).0 }

  abbrev pub is_current : Option ℕ → ℕ → Bool
  is_current none context = false
  is_current (some current) context = current == context

  abbrev pub wake_worker : ℕ → W → W × Outcome
  wake_worker context w =
      if is_current router.current_context_index context
      then (w, Outcome.succeeded)
      else router.wake context w

  unfoldable pub granted_turn :
      TaskFacilityRuntime t W
      → Outcome
      → ℕ
      → TaskFacilityCore t × TaskWorkerClaimResult
      → Turn Scheduled
  unfolding wake_matching_waiters
  granted_turn rt result context (core, TaskWorkerClaimResult.queue_empty) =
      Turn.finished
        (give_back (record rt { core = core }) context, Outcome.failed router.provider_failure)
  granted_turn rt result context (core, TaskWorkerClaimResult.claimed b) =
      let (waiters, (w, woken)) = wake_matching_waiters rt.waiters b rt.world in
      Turn.continued
        (record rt { core = core; waiters = waiters; world = w }, first_failure result woken)

  unfoldable pub woken_turn : TaskFacilityRuntime t W → Outcome → ℕ → W × Outcome → Turn Scheduled
  unfolding granted_turn
  woken_turn rt result context (w, Outcome.succeeded) =
      granted_turn (record rt { world = w }) result context
        (claim_next_for_worker t rt.core context)
  woken_turn rt result context (w, Outcome.failed e) =
      Turn.finished (give_back (record rt { world = w }) context, Outcome.failed e)

  unfoldable pub leased_turn : TaskFacilityRuntime t W → Outcome → ℕ → Option ℕ → Turn Scheduled
  unfolding woken_turn
  leased_turn rt result context none = Turn.stuck
  leased_turn rt result context (some zero) = Turn.finished (give_back rt context, result)
  leased_turn rt result context (some (suc n)) =
      woken_turn rt result context (wake_worker context rt.world)

  unfoldable pub turn_on : TaskFacilityRuntime t W → Outcome → Workers t × Option ℕ → Turn Scheduled
  unfolding leased_turn
  turn_on rt result (workers, none) = Turn.finished (record rt { workers = workers }, result)
  turn_on rt result (workers, some context) =
      leased_turn (record rt { workers = workers }) result context (queued_tasks t rt.core)

  -- One turn of the loop of ScheduleAvailableWorkers.
  unfoldable pub schedule_turn : TaskFacilityRuntime t W → Outcome → Turn Scheduled
  unfolding turn_on
  schedule_turn rt result = turn_on rt result (claim_worker rt.workers)

  -- ScheduleAvailableWorkers, on fuel: `none` says that it has not ended.
  unfoldable pub schedule_loop : ℕ → TaskFacilityRuntime t W → Outcome → Option Scheduled
  unfolding schedule_turn
  schedule_loop zero rt result = none
  schedule_loop (suc fuel) rt result = elim (schedule_turn rt result) [
    | Turn.finished out ↦ some out
    | Turn.continued (rt', result') ↦ schedule_loop fuel rt' result'
    | Turn.stuck ↦ none
  ]

  -- The pass; its fuel is the record capacity and one more.
  unfoldable pub schedule_available_workers : TaskFacilityRuntime t W → Option Scheduled
  unfolding schedule_loop
  schedule_available_workers rt = schedule_loop (suc t.records) rt Outcome.succeeded
