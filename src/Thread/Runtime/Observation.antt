-- ===== src/Thread/Runtime/Observation.antt =====
-- src/threading/detail/DedicatedThreadRuntime.hpp: what is observed of a Dedicated Thread.
use edp_threading.Base.{ℕ, Bool, true, false, not, ◌||◌, Option, none, some, ◌==◌, if◌then◌else◌}
use edp_threading.Types.{ThreadState}
use edp_threading.Thread.Control.{
  DedicatedThreadControl, state as control_state, is_stop_requested as control_is_stop_requested,
}
use edp_threading.Thread.Runtime.{
  DedicatedThreadRuntime, Services, public_state_for, is_stopped, is_never_started, lock, unlock,
}

module _ {W : Type 0} (services : Services W) (contexts sentinel context : ℕ) where
  -- Under the lock, an observation of the control byte, or what stands for it without the lock.
  abbrev pub observe :
      {A : Type 0}
      → (DedicatedThreadControl → A)
      → A
      → DedicatedThreadRuntime W × Bool
      → DedicatedThreadRuntime W × A
  observe seen fallback (rt, true) = (unlock services contexts sentinel context rt, seen rt.control)
  observe seen fallback (rt, false) = (rt, fallback)

  -- State.
  unfoldable pub state : DedicatedThreadRuntime W → DedicatedThreadRuntime W × ThreadState
  unfolding public_state_for
  state rt =
      observe (λ c. public_state_for (control_state c)) ThreadState.stopped
        (lock services contexts sentinel context rt)

  -- IsStopRequested.
  unfoldable pub is_stop_requested : DedicatedThreadRuntime W → DedicatedThreadRuntime W × Bool
  is_stop_requested rt =
      observe control_is_stop_requested true (lock services contexts sentinel context rt)

  -- IsExecutionQuiescent.
  unfoldable pub is_execution_quiescent : DedicatedThreadRuntime W → DedicatedThreadRuntime W × Bool
  is_execution_quiescent rt =
      observe (λ c. is_never_started (control_state c) || is_stopped (control_state c)) false
        (lock services contexts sentinel context rt)

  -- CurrentContextIndex.
  unfoldable pub current_context_index : DedicatedThreadRuntime W → Option ℕ
  current_context_index rt = if services.is_current_context rt.world then some context else none

  -- IsContextInterrupted.
  unfoldable pub is_context_interrupted :
      DedicatedThreadRuntime W → ℕ → DedicatedThreadRuntime W × Bool
  unfolding is_stop_requested
  is_context_interrupted rt index =
      let (rt', requested) = is_stop_requested rt in
      let (w, terminate) = services.should_terminate rt'.world in
      if not (index == context)
      then (rt, false)
      else if requested
      then (rt', true)
      else (record rt' { world = w }, terminate)
