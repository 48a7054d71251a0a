-- ===== src/Thread/Runtime.antt =====
-- src/threading/detail/DedicatedThreadRuntime.hpp: a Dedicated Thread's control byte and its joiners,
-- under its lock. The mutex, the router and the lifecycle's predicates are the interface `Services`.
pub mod Join
pub mod Observation
pub mod Publishing
pub mod Starting
pub mod Waiting
use edp_threading.Base.{
  ℕ, Bool, true, false, not, ◌&&◌, ◌||◌, Option, none, some, ◌==◌, ◌=?◌, if◌then◌else◌,
}
use edp_threading.Types.{
  ThreadState, ThreadStartResult, ThreadStopRequestResult, ThreadWakeResult, ThreadWaitResult,
}
use edp_threading.Lifecycle.{Outcome, is_success, first_failure}
use edp_threading.Wait.Budget.{
  WaitTimeout, Delta, ℤ, MonotonicWaitBudget, is_no_wait, for_duration, until, remaining,
}
use edp_threading.Wait.Loop.{SignalWaitResult}
use edp_threading.Wait.Registration.{
  ThreadJoinRegistration, RegistrationSet, thread_join, visit_active,
}
use edp_threading.Thread.Control.{
  DedicatedThreadControl, DedicatedThreadOperationalState, DedicatedThreadControlStartResult,
  DedicatedThreadControlStopRequestResult, DedicatedThreadControlPublicationResult,
  state as control_state, phase, is_running, is_stop_requested as control_is_stop_requested,
  try_start, try_request_stop, try_publish_stopped,
}

pub record DedicatedThreadRuntime (W : Type 0) : Type 0 where
  pub control : DedicatedThreadControl
  pub join_waiters : RegistrationSet ThreadJoinRegistration
  pub world : W

-- What the runtime calls. Other threads run, and may change the runtime, while the lock is awaited,
-- in a wait and in the callable; while the lock is held, a call changes the world only.
pub record Services (W : Type 0) : Type 0 where
  pub acquire : WaitTimeout → DedicatedThreadRuntime W → DedicatedThreadRuntime W × Bool
  pub release : W → W × Bool
  pub wake : ℕ → W → W × Outcome
  pub wait :
      ℕ → WaitTimeout → DedicatedThreadRuntime W → DedicatedThreadRuntime W × SignalWaitResult
  pub is_interrupted : ℕ → W → W × Bool
  pub current_context_index : Option ℕ
  pub can_activate : W → W × Bool
  pub should_terminate : W → W × Bool
  pub is_current_context : W → Bool
  pub callable : DedicatedThreadRuntime W → DedicatedThreadRuntime W
  pub monotonic_now : W → ℕ
  pub delta : Delta

pub data DedicatedThreadSynchronizationResult : Type 0 where
  ready provider_failure : DedicatedThreadSynchronizationResult

pub data DedicatedThreadStoppedPublicationResult : Type 0 where
  published stale_activation provider_failure : DedicatedThreadStoppedPublicationResult

-- How a turn of the trampoline ends: the context returns, it has run the callable, or it has
-- waited for a wake.
pub data EntryTurn (A : Type 0) : Type 0 where
  returned ran waited : A → EntryTurn A

-- PublicStateFor.
unfoldable pub public_state_for : DedicatedThreadOperationalState → ThreadState
public_state_for DedicatedThreadOperationalState.never_started = ThreadState.never_started
public_state_for DedicatedThreadOperationalState.running = ThreadState.running
public_state_for DedicatedThreadOperationalState.running_stop_requested = ThreadState.running
public_state_for DedicatedThreadOperationalState.stopped = ThreadState.stopped

abbrev pub is_stopped : DedicatedThreadOperationalState → Bool
is_stopped DedicatedThreadOperationalState.stopped = true
is_stopped _ = false

abbrev pub is_never_started : DedicatedThreadOperationalState → Bool
is_never_started DedicatedThreadOperationalState.never_started = true
is_never_started _ = false

-- IsActivationStopped.
unfoldable pub is_activation_stopped : DedicatedThreadControl → Bool → Bool
is_activation_stopped c captured_phase =
    if not (phase c =? captured_phase) then true else is_stopped (control_state c)

-- `contexts` is the capacity of managed contexts, `sentinel` the index of none, and `context` that
-- of this thread.
module _ {W : Type 0} (services : Services W) (contexts sentinel context : ℕ) where
  abbrev pub lock : DedicatedThreadRuntime W → DedicatedThreadRuntime W × Bool
  lock rt = services.acquire WaitTimeout.forever rt

  -- ReleaseLock, whose result the operations do not look at.
  abbrev pub unlock : DedicatedThreadRuntime W → DedicatedThreadRuntime W
  unlock rt = record rt { world = (services.release rt.world).0 }

  -- WakeJoiners.
  unfoldable pub wake_joiners :
      RegistrationSet ThreadJoinRegistration
      → Bool
      → W
      → RegistrationSet ThreadJoinRegistration × (W × Outcome)
  unfolding visit_active
  wake_joiners waiters activation_phase w =
      visit_active (thread_join sentinel) contexts {S = W × Outcome}
        (λ r at.
          if r.phase =? activation_phase
          then (let (w', o) = services.wake r.waiting_context_index at.0 in
              (r, (w', first_failure at.1 o)))
          else (r, at))
        (waiters, (w, Outcome.succeeded))

  -- PublishStopped, after TryPublishStopped.
  unfoldable pub after_publication :
      DedicatedThreadRuntime W
      → Bool
      → DedicatedThreadControlPublicationResult
      → DedicatedThreadRuntime W × DedicatedThreadStoppedPublicationResult
  unfolding wake_joiners
  after_publication rt activation_phase DedicatedThreadControlPublicationResult.published =
      let (waiters, (w, woken)) = wake_joiners rt.join_waiters activation_phase rt.world in
      (
        unlock (record rt { join_waiters = waiters; world = w }),
        if is_success woken
            then DedicatedThreadStoppedPublicationResult.published
            else DedicatedThreadStoppedPublicationResult.provider_failure,
      )
  after_publication rt activation_phase _ =
      (unlock rt, DedicatedThreadStoppedPublicationResult.stale_activation)

  unfoldable pub publish_locked :
      DedicatedThreadRuntime W
      → Bool
      → DedicatedThreadRuntime W × DedicatedThreadStoppedPublicationResult
  unfolding after_publication
  publish_locked rt activation_phase =
      let (control, result) = try_publish_stopped rt.control activation_phase in
      after_publication (record rt { control = control }) activation_phase result

  -- PublishStopped.
  unfoldable pub publish_stopped :
      DedicatedThreadRuntime W
      → Bool
      → DedicatedThreadRuntime W × DedicatedThreadStoppedPublicationResult
  unfolding publish_locked
  publish_stopped rt activation_phase =
      let (rt', acquired) = lock rt in
      if acquired
      then publish_locked rt' activation_phase
      else (rt', DedicatedThreadStoppedPublicationResult.provider_failure)

  -- ValidateSynchronization.
  unfoldable pub validate_synchronization :
      DedicatedThreadRuntime W → DedicatedThreadRuntime W × DedicatedThreadSynchronizationResult
  validate_synchronization rt =
      let (rt', acquired) = services.acquire WaitTimeout.no_wait rt in
      if acquired
      then (let (w, released) = services.release rt'.world in
          (
            record rt' { world = w },
            if released
                then DedicatedThreadSynchronizationResult.ready
                else DedicatedThreadSynchronizationResult.provider_failure,
          ))
      else (rt', DedicatedThreadSynchronizationResult.provider_failure)

  -- The Phase that the trampoline is to run, if the activation runs.
  abbrev pub to_run : DedicatedThreadRuntime W × Bool → DedicatedThreadRuntime W × Option Bool
  to_run (rt, true) =
      (unlock rt, if is_running (control_state rt.control) then some (phase rt.control) else none)
  to_run (rt, false) = (rt, none)

  abbrev pub run_or_wait :
      DedicatedThreadRuntime W × Option Bool → EntryTurn (DedicatedThreadRuntime W)
  run_or_wait (rt, some activation_phase) =
      EntryTurn.ran (publish_stopped (services.callable rt) activation_phase).0
  run_or_wait (rt, none) = EntryTurn.waited (services.wait context WaitTimeout.forever rt).0

  -- One turn of the trampoline, Entry.
  unfoldable pub entry_turn : DedicatedThreadRuntime W → EntryTurn (DedicatedThreadRuntime W)
  unfolding publish_stopped
  entry_turn rt =
      let (w, terminate) = services.should_terminate rt.world in
      if terminate
      then EntryTurn.returned (record rt { world = w })
      else run_or_wait (to_run (lock (record rt { world = w })))

  unfoldable pub start_woken :
      DedicatedThreadRuntime W → W × Outcome → DedicatedThreadRuntime W × ThreadStartResult
  start_woken rt (w, Outcome.failed e) =
      (unlock (record rt { world = w }), ThreadStartResult.activation_failed)
  start_woken rt (w, Outcome.succeeded) =
      let (control, _, answer) = try_start rt.control false in
      elim answer [
        | DedicatedThreadControlStartResult.started ↦
            (unlock (record rt { control = control; world = w }), ThreadStartResult.started)
        | DedicatedThreadControlStartResult.already_running ↦ (
          unlock (record rt { control = control; world = w }),
          ThreadStartResult.activation_failed,
        )
      ]

  -- What StartActivation does under the lock.
  unfoldable pub start_locked :
      DedicatedThreadRuntime W → DedicatedThreadRuntime W × ThreadStartResult
  unfolding start_woken
  start_locked rt =
      let (w, permitted) = services.can_activate rt.world in
      if not permitted
      then (unlock (record rt { world = w }), ThreadStartResult.shutting_down)
      else if is_running (control_state rt.control)
      then (unlock (record rt { world = w }), ThreadStartResult.already_running)
      else start_woken (record rt { world = w }) (services.wake context w)

  -- StartActivation.
  unfoldable pub start_activation :
      DedicatedThreadRuntime W → DedicatedThreadRuntime W × ThreadStartResult
  unfolding start_locked
  start_activation rt =
      let (w, permitted) = services.can_activate rt.world in
      let (rt', acquired) = lock (record rt { world = w }) in
      if not permitted
      then (record rt { world = w }, ThreadStartResult.shutting_down)
      else if acquired
      then start_locked rt'
      else (rt', ThreadStartResult.activation_failed)

  abbrev pub stop_requested :
      DedicatedThreadRuntime W
      → DedicatedThreadControl × DedicatedThreadControlStopRequestResult
      → DedicatedThreadRuntime W × ThreadStopRequestResult
  stop_requested rt (control, DedicatedThreadControlStopRequestResult.accepted) = (
    unlock (record rt { control = control; world = (services.wake context rt.world).0 }),
    ThreadStopRequestResult.accepted,
  )
  stop_requested rt (control, DedicatedThreadControlStopRequestResult.not_running) =
      (unlock (record rt { control = control }), ThreadStopRequestResult.not_running)

  -- RequestStop.
  unfoldable pub request_stop :
      DedicatedThreadRuntime W → DedicatedThreadRuntime W × ThreadStopRequestResult
  request_stop rt =
      let (rt', acquired) = lock rt in
      if acquired
      then stop_requested rt' (try_request_stop rt'.control)
      else (rt', ThreadStopRequestResult.not_running)

  -- Wake.
  unfoldable pub wake : DedicatedThreadRuntime W → DedicatedThreadRuntime W × ThreadWakeResult
  wake rt =
      let (w, o) = services.wake context rt.world in
      (
        record rt { world = w },
        if is_success o then ThreadWakeResult.woken else ThreadWakeResult.provider_failure,
      )
