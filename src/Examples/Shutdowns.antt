-- ===== src/Examples/Shutdowns.antt =====
-- The theorems on the waits for the end of the shutdown and on the coordinator, applied.
use edp_threading.Base.{ℕ, suc, ◌≡◌, true, false, some, leb, if◌then◌else◌, arith}
use edp_threading.Types.{ShutdownWaitResult}
use edp_threading.Lifecycle.{InfrastructureState, Outcome, Platform, InfrastructureLifecycle}
use edp_threading.Wait.Budget.{until, remaining}
use edp_threading.Wait.Loop.{SignalWaitResult}
use edp_threading.Wait.Registration.{shutdown_wait, no_registrations}
use edp_threading.Owner.{begin_owner_shutdown, all_quiescent}
use edp_threading.Shutdown.{
  ShutdownWaitRuntime, ShutdownServices, enter, wait_with_budget, wake_completed,
}
use edp_threading.Shutdown.Justified.{SeesEnd}
use edp_threading.Shutdown.Returning.{Returns, Passes, shutdown_wait-total}
use edp_threading.Shutdown.Waking.{WakesAll, Registered, wake_completed_lem, enter-Registered}
use edp_threading.Shutdown.Coordinator.{begin, is_execution_quiescent}
use edp_threading.Shutdown.Coordinator.Agreement.{grouped, begin-begin_owner_shutdown}
use edp_threading.Examples.Budgets.{delta}

-- The world is the instant. Each wait takes one nanosecond, and the shutdown is complete at 4.
abbrev services : ShutdownServices ℕ
services = record {
  acquire = λ n rt. (rt, true);
  release = λ rt. (rt, true);
  wait = λ context n rt. (record rt { world = suc rt.world }, SignalWaitResult.timed_out);
  lifecycle_state = λ w. (
    w,
    if leb 4 w then InfrastructureState.shutdown_complete else InfrastructureState.shutting_down,
  );
  is_interrupted = λ context w. (w, false);
  wake = λ context w. (w, Outcome.succeeded);
  current_context_index = some 1;
  monotonic_now = λ w. w;
  delta = delta;
}

abbrev waiting_for_end : ShutdownWaitRuntime ℕ
waiting_for_end = record { waiters = no_registrations (shutdown_wait 255) 2; world = 0 }

services-Passes : Passes services 2 255 (until 3) 3
unfolding remaining until
services-Passes = record {
  acquire_later = λ n rt. omega arith;
  release_later = λ rt. omega arith;
  state_later = λ w. omega arith;
  stop_later = λ context w. omega arith;
  wait_later = λ context n rt. omega arith;
  ends = λ rt late. ground (arith, late);
}

shutdown_wait-total_example :
    (out : ShutdownWaitRuntime ℕ × ShutdownWaitResult) × (wait_with_budget services 2 255
        (until 3)
        4
        waiting_for_end
      ≡ some out)
    × Returns services 2 255 (until 3) waiting_for_end out
    × SeesEnd services 2 255 (until 3)
shutdown_wait-total_example =
    shutdown_wait-total services 2 255 (until 3) 3 services-Passes 4 waiting_for_end (omega arith)

wake_completed_lem_example :
    WakesAll services 2 255 waiting_for_end (wake_completed services 2 255 waiting_for_end)
wake_completed_lem_example = wake_completed_lem services 2 255 waiting_for_end

enter-Registered_example : Registered services 2 255 1 (enter services 2 255 1 waiting_for_end)
enter-Registered_example = enter-Registered services 2 255 1 waiting_for_end (ground arith)

abbrev counting_calls : Platform ℕ
counting_calls call w = (suc w, Outcome.succeeded)

abbrev started_lifecycle : InfrastructureLifecycle ℕ
started_lifecycle = record { state = InfrastructureState.started; world = 0 }

begin-begin_owner_shutdown_example :
    (begin counting_calls 2 1 started_lifecycle
      ≡ begin_owner_shutdown counting_calls (grouped 2 1) started_lifecycle)
    × (is_execution_quiescent counting_calls 2 1 0 ≡ all_quiescent counting_calls (grouped 2 1) 0 0)
begin-begin_owner_shutdown_example =
    begin-begin_owner_shutdown counting_calls 2 1 started_lifecycle 0
