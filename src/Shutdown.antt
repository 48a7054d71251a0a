-- ===== src/Shutdown.antt =====
-- src/threading/detail/ShutdownWaitRuntime.hpp: the waits for the end of the shutdown, and the wakes
-- that end them. Other threads may publish that end at any call, also while the lock is held.
pub mod Coordinator
pub mod Justified
pub mod Returning
pub mod Waking
use edp_threading.Base.{
  ℕ, zero, suc, Bool, true, false, ◌&&◌, ◌||◌, Option, none, some, if◌then◌else◌,
}
use edp_threading.Types.{ShutdownWaitResult}
use edp_threading.Lifecycle.{InfrastructureState, Outcome, is_success, first_failure}
use edp_threading.Wait.Budget.{
  WaitTimeout, Delta, ℤ, MonotonicWaitBudget, is_no_wait, forever_budget, for_duration, until,
  remaining,
}
use edp_threading.Wait.Loop.{SignalWaitResult, is_provider_failure, is_timed_out}
use edp_threading.Wait.Registration.{
  ShutdownWaitRegistration, RegistrationSet, shutdown_wait, register, unregister, visit_active,
  registered_slot,
}

pub record ShutdownWaitRuntime (W : Type 0) : Type 0 where
  pub waiters : RegistrationSet ShutdownWaitRegistration
  pub world : W

-- What the runtime calls. Other threads run, and may change the waiters, while the lock is awaited,
-- after it is released and in a wait; any other call changes the world only.
pub record ShutdownServices (W : Type 0) : Type 0 where
  pub acquire : WaitTimeout → ShutdownWaitRuntime W → ShutdownWaitRuntime W × Bool
  pub release : ShutdownWaitRuntime W → ShutdownWaitRuntime W × Bool
  pub wait : ℕ → WaitTimeout → ShutdownWaitRuntime W → ShutdownWaitRuntime W × SignalWaitResult
  pub lifecycle_state : W → W × InfrastructureState
  pub is_interrupted : ℕ → W → W × Bool
  pub wake : ℕ → W → W × Outcome
  pub current_context_index : Option ℕ
  pub monotonic_now : W → ℕ
  pub delta : Delta

pub data ShutdownWaitSynchronizationResult : Type 0 where
  ready provider_failure : ShutdownWaitSynchronizationResult

pub data ShutdownWaitWakeResult : Type 0 where
  succeeded provider_failure : ShutdownWaitWakeResult

-- How a step of a wait ends: with its result, or registered in a slot, without the lock.
pub data Progress (W : Type 0) : Type 0 where
  returned : ShutdownWaitRuntime W × ShutdownWaitResult → Progress W
  waiting : ℕ → ShutdownWaitRuntime W → Progress W

abbrev pub is_shutdown_complete : InfrastructureState → Bool
is_shutdown_complete InfrastructureState.shutdown_complete = true
is_shutdown_complete _ = false

-- The specialisation for an empty topology: every one of its waits is this look at the lifecycle.
unfoldable pub wait_empty : InfrastructureState → ShutdownWaitResult
wait_empty s =
    if is_shutdown_complete s then ShutdownWaitResult.completed else ShutdownWaitResult.interrupted

module _ {W : Type 0} (services : ShutdownServices W) (contexts sentinel : ℕ) where
  -- IsComplete.
  abbrev pub is_complete : ShutdownWaitRuntime W → ShutdownWaitRuntime W × Bool
  is_complete rt =
      let (w, s) = services.lifecycle_state rt.world in
      (record rt { world = w }, is_shutdown_complete s)

  abbrev pub asked_to_stop : ℕ → ShutdownWaitRuntime W → ShutdownWaitRuntime W × Bool
  asked_to_stop context rt =
      let (w, stop) = services.is_interrupted context rt.world in (record rt { world = w }, stop)

  abbrev pub take_back : ℕ → ShutdownWaitRuntime W → ShutdownWaitRuntime W
  take_back slot rt = record rt {
    waiters = unregister (shutdown_wait sentinel) contexts rt.waiters slot;
  }

  -- Unregister: whether it answers Removed.
  unfoldable pub remove : ℕ → ShutdownWaitRuntime W → ShutdownWaitRuntime W × Bool
  unfolding unregister
  remove slot rt =
      let (rt', acquired) = services.acquire WaitTimeout.forever rt in
      if acquired then services.release (take_back slot rt') else (rt', false)

  -- A result that holds only if a call went well.
  abbrev pub confirmed :
      ShutdownWaitResult → ShutdownWaitRuntime W × Bool → ShutdownWaitRuntime W × ShutdownWaitResult
  confirmed result (rt, well) = (rt, if well then result else ShutdownWaitResult.interrupted)

  abbrev pub complete_or : ShutdownWaitResult → Bool → ShutdownWaitResult
  complete_or other complete = if complete then ShutdownWaitResult.completed else other

  -- No time is left.
  unfoldable pub expire : ℕ → ShutdownWaitRuntime W → ShutdownWaitRuntime W × ShutdownWaitResult
  unfolding remove
  expire slot rt =
      let (rt', complete) = is_complete rt in
      confirmed (complete_or ShutdownWaitResult.timed_out complete) (remove slot rt')

  abbrev pub abandoned : ℕ → ShutdownWaitRuntime W → ShutdownWaitRuntime W × ShutdownWaitResult
  abandoned slot rt = ((remove slot rt).0, ShutdownWaitResult.interrupted)

  -- The lock is released, and the loop begins.
  abbrev pub begin_waiting : ℕ → ShutdownWaitRuntime W × Bool → Progress W
  begin_waiting slot (rt, well) =
      if well
      then Progress.waiting slot rt
      else Progress.returned (rt, ShutdownWaitResult.interrupted)

  -- What follows a registration: the second look at the lifecycle.
  unfoldable pub registered : ShutdownWaitRuntime W × Option ℕ → Progress W
  unfolding unregister
  registered (rt, none) =
      Progress.returned ((services.release rt).0, ShutdownWaitResult.interrupted)
  registered (rt, some slot) =
      let (rt', complete) = is_complete rt in
      if complete
      then Progress.returned
          (confirmed ShutdownWaitResult.completed (services.release (take_back slot rt')))
      else begin_waiting slot (services.release rt')

  abbrev pub enrol : ℕ → ShutdownWaitRuntime W → ShutdownWaitRuntime W × Option ℕ
  enrol context rt =
      let (waiters, slot) = registered_slot (
        register (shutdown_wait sentinel) contexts rt.waiters
          (record { waiting_context_index = context }) 0) in
      (record rt { waiters = waiters }, slot)

  -- The part under the lock, before the loop.
  unfoldable pub enter : ℕ → ShutdownWaitRuntime W → Progress W
  unfolding register registered
  enter context rt =
      let (rt', complete) = is_complete rt in
      if complete
      then Progress.returned (confirmed ShutdownWaitResult.completed (services.release rt'))
      else registered (enrol context rt')

  abbrev pub time_left : MonotonicWaitBudget → ShutdownWaitRuntime W → WaitTimeout
  time_left budget rt = remaining services.delta budget (services.monotonic_now rt.world)

  -- After a wait with the result `r`, when the shutdown is not complete.
  unfoldable pub look_around :
      ℕ → MonotonicWaitBudget → ℕ → SignalWaitResult → ShutdownWaitRuntime W → Progress W
  unfolding remaining remove expire
  look_around context budget slot r rt =
      let (rt', stop) = asked_to_stop context rt in
      if stop || is_provider_failure r
      then Progress.returned (abandoned slot rt')
      else if is_timed_out r && is_no_wait (time_left budget rt')
      then Progress.returned (expire slot rt')
      else Progress.waiting slot rt'

  -- One turn of the loop.
  unfoldable pub turn : ℕ → MonotonicWaitBudget → ℕ → ShutdownWaitRuntime W → Progress W
  unfolding remaining remove expire look_around
  turn context budget slot rt =
      if is_no_wait (time_left budget rt)
      then Progress.returned (expire slot rt)
      else (let (woken, r) = services.wait context (time_left budget rt) rt in
          let (rt', complete) = is_complete woken in
          if complete
          then Progress.returned (confirmed ShutdownWaitResult.completed (remove slot rt'))
          else look_around context budget slot r rt')

  -- The loop, on fuel: `none` says that it has not ended.
  unfoldable pub run :
      ℕ → MonotonicWaitBudget → ℕ → Progress W → Option (ShutdownWaitRuntime W × ShutdownWaitResult)
  unfolding turn
  run context budget fuel (Progress.returned out) = some out
  run context budget zero (Progress.waiting slot rt) = none
  run context budget (suc fuel) (Progress.waiting slot rt) =
      run context budget fuel (turn context budget slot rt)

  unfoldable pub wait_on :
      MonotonicWaitBudget
      → ℕ
      → ShutdownWaitRuntime W
      → Option ℕ
      → Option (ShutdownWaitRuntime W × ShutdownWaitResult)
  unfolding enter run
  wait_on budget fuel rt none = some (rt, ShutdownWaitResult.interrupted)
  wait_on budget fuel rt (some context) =
      let (rt', acquired) = services.acquire WaitTimeout.forever rt in
      if acquired
      then run context budget fuel (enter context rt')
      else some (rt', ShutdownWaitResult.interrupted)

  -- WaitWithBudget.
  unfoldable pub wait_with_budget :
      MonotonicWaitBudget
      → ℕ
      → ShutdownWaitRuntime W
      → Option (ShutdownWaitRuntime W × ShutdownWaitResult)
  unfolding wait_on
  wait_with_budget budget fuel rt =
      let (rt', complete) = is_complete rt in
      if complete
      then some (rt', ShutdownWaitResult.completed)
      else wait_on budget fuel rt' services.current_context_index

  -- Wait, WaitFor and WaitUntil.
  unfoldable pub wait :
      ℕ → ShutdownWaitRuntime W → Option (ShutdownWaitRuntime W × ShutdownWaitResult)
  unfolding wait_with_budget
  wait fuel rt = wait_with_budget forever_budget fuel rt

  unfoldable pub wait_for :
      ℤ → ℕ → ShutdownWaitRuntime W → Option (ShutdownWaitRuntime W × ShutdownWaitResult)
  unfolding wait_with_budget for_duration
  wait_for duration fuel rt =
      wait_with_budget (for_duration duration (services.monotonic_now rt.world)) fuel rt

  unfoldable pub wait_until :
      ℕ → ℕ → ShutdownWaitRuntime W → Option (ShutdownWaitRuntime W × ShutdownWaitResult)
  unfolding wait_with_budget until
  wait_until deadline fuel rt = wait_with_budget (until deadline) fuel rt

  -- ValidateSynchronization.
  unfoldable pub validate_synchronization :
      ShutdownWaitRuntime W → ShutdownWaitRuntime W × ShutdownWaitSynchronizationResult
  validate_synchronization rt =
      let (rt', acquired) = services.acquire WaitTimeout.no_wait rt in
      let (rt'', released) = services.release rt' in
      if acquired
      then (
        rt'',
        if released
            then ShutdownWaitSynchronizationResult.ready
            else ShutdownWaitSynchronizationResult.provider_failure,
      )
      else (rt', ShutdownWaitSynchronizationResult.provider_failure)

  abbrev pub wake_waiter :
      ShutdownWaitRegistration → W × Outcome → ShutdownWaitRegistration × (W × Outcome)
  wake_waiter r at =
      let (w, o) = services.wake r.waiting_context_index at.0 in (r, (w, first_failure at.1 o))

  -- The wakes of WakeCompleted, under the lock; a failure is kept, and the visit goes on.
  unfoldable pub wake_registered : ShutdownWaitRuntime W → ShutdownWaitRuntime W × Outcome
  unfolding visit_active
  wake_registered rt =
      let out =
        visit_active (shutdown_wait sentinel) contexts wake_waiter
          (rt.waiters, (rt.world, Outcome.succeeded)) in
      (record { waiters = out.0; world = out.1.0 }, out.1.1)

  -- WakeCompleted.
  unfoldable pub wake_completed :
      ShutdownWaitRuntime W → ShutdownWaitRuntime W × ShutdownWaitWakeResult
  unfolding wake_registered
  wake_completed rt =
      let (rt', acquired) = services.acquire WaitTimeout.forever rt in
      let (woken, o) = wake_registered rt' in
      let (rt'', released) = services.release woken in
      if acquired
      then (
        rt'',
        if released && is_success o
            then ShutdownWaitWakeResult.succeeded
            else ShutdownWaitWakeResult.provider_failure,
      )
      else (rt', ShutdownWaitWakeResult.provider_failure)
