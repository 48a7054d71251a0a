-- ===== src/Thread/Runtime/Join.antt =====
-- src/threading/detail/DedicatedThreadRuntime.hpp: Join, for the activation that it finds.
pub mod Ends
pub mod Tests
use edp_threading.Base.{
  ℕ, zero, suc, Bool, true, false, ◌≡◌, refl, Option, none, some, if◌then◌else◌,
}
use edp_threading.Types.{ThreadJoinResult}
use edp_threading.Wait.Budget.{
  WaitTimeout, MonotonicWaitBudget, ℤ, forever_budget, for_duration, until,
}
use edp_threading.Wait.Loop.{Environment, Target, Verdict, Course, Step, enter, run}
use edp_threading.Wait.Registration.{thread_join, register, unregister, registered_slot}
use edp_threading.Thread.Control.{state as control_state, phase}
use edp_threading.Thread.Runtime.{
  DedicatedThreadRuntime, Services, is_activation_stopped, is_stopped, is_never_started, lock,
  unlock,
}

module _ {W : Type 0} (services : Services W) (contexts sentinel context : ℕ) where
  -- What a join calls.
  abbrev pub environment : Environment (DedicatedThreadRuntime W)
  environment = record {
    acquire = lock services contexts sentinel context;
    release = unlock services contexts sentinel context;
    wait = services.wait;
    is_interrupted = λ index rt.
        let (w, b) = services.is_interrupted index rt.world in (record rt { world = w }, b);
    monotonic_now = λ rt. services.monotonic_now rt.world;
    delta = services.delta;
  }

  -- What it waits for, in the Phase that it found: that the activation has stopped.
  abbrev pub activation_stops : Bool → ℕ → Target (DedicatedThreadRuntime W)
  activation_stops captured_phase waiting = record {
    holds = λ rt. is_activation_stopped rt.control captured_phase;
    enrol = λ rt.
        let (waiters, slot) = registered_slot (
          register (thread_join sentinel) contexts rt.join_waiters
            (record { phase = captured_phase; waiting_context_index = waiting }) 0) in
        (record rt { join_waiters = waiters }, slot);
    refuse = λ rt. rt;
    settle = λ slot rt. record rt {
      join_waiters = unregister (thread_join sentinel) contexts rt.join_waiters slot;
    };
    give_up = λ slot rt. record rt {
      join_waiters = unregister (thread_join sentinel) contexts rt.join_waiters slot;
    };
  }

  abbrev pub join_result : Verdict → ThreadJoinResult
  join_result Verdict.fulfilled = ThreadJoinResult.joined
  join_result Verdict.expired = ThreadJoinResult.timed_out
  join_result Verdict.interrupted = ThreadJoinResult.interrupted

  abbrev pub joined :
      Option (DedicatedThreadRuntime W × Verdict)
      → Option (DedicatedThreadRuntime W × ThreadJoinResult)
  joined none = none
  joined (some (rt, verdict)) = some (rt, join_result verdict)

  -- JoinWithBudget under the lock; of a stopped activation the wait is over as it begins.
  unfoldable pub join_locked :
      ℕ
      → MonotonicWaitBudget
      → ℕ
      → DedicatedThreadRuntime W
      → Option (DedicatedThreadRuntime W × ThreadJoinResult)
  unfolding enter run register unregister is_activation_stopped
  join_locked waiting budget fuel rt =
      if is_never_started (control_state rt.control)
      then some (unlock services contexts sentinel context rt, ThreadJoinResult.never_started)
      else joined (
          run environment (activation_stops (phase rt.control) waiting) waiting budget
            Course.abandoning fuel
            (enter environment (activation_stops (phase rt.control) waiting) waiting budget rt))

  -- JoinWithBudget, on fuel for its loop: `none` says that it has not ended.
  unfoldable pub join_with_budget :
      MonotonicWaitBudget
      → ℕ
      → DedicatedThreadRuntime W
      → Option (DedicatedThreadRuntime W × ThreadJoinResult)
  unfolding join_locked
  join_with_budget budget fuel rt = elim (services.current_context_index) [
    | none ↦ some (rt, ThreadJoinResult.interrupted)
    | some waiting ↦
        let (rt', acquired) = lock services contexts sentinel context rt in
        if acquired
        then join_locked waiting budget fuel rt'
        else some (rt', ThreadJoinResult.interrupted)
  ]

  -- Join, JoinFor and JoinUntil.
  unfoldable pub join :
      ℕ → DedicatedThreadRuntime W → Option (DedicatedThreadRuntime W × ThreadJoinResult)
  unfolding join_with_budget forever_budget
  join fuel rt = join_with_budget forever_budget fuel rt

  unfoldable pub join_for :
      ℤ → ℕ → DedicatedThreadRuntime W → Option (DedicatedThreadRuntime W × ThreadJoinResult)
  unfolding join_with_budget for_duration
  join_for duration fuel rt =
      join_with_budget (for_duration duration (services.monotonic_now rt.world)) fuel rt

  unfoldable pub join_until :
      ℕ → ℕ → DedicatedThreadRuntime W → Option (DedicatedThreadRuntime W × ThreadJoinResult)
  unfolding join_with_budget until
  join_until deadline fuel rt = join_with_budget (until deadline) fuel rt
