-- ===== src/Thread/Runtime/Waiting.antt =====
-- src/threading/detail/DedicatedThreadRuntime.hpp: the waits of a Dedicated Thread itself.
use edp_threading.Base.{ℕ, if◌then◌else◌}
use edp_threading.Types.{ThreadWaitResult}
use edp_threading.Wait.Budget.{
  WaitTimeout, ℤ, MonotonicWaitBudget, is_no_wait, for_duration, until, remaining,
}
use edp_threading.Wait.Loop.{SignalWaitResult}
use edp_threading.Thread.Runtime.{DedicatedThreadRuntime, Services}

module _ {W : Type 0} (services : Services W) (contexts sentinel context : ℕ) where
  abbrev pub woken_or_not : SignalWaitResult → ThreadWaitResult
  woken_or_not SignalWaitResult.signaled = ThreadWaitResult.woken
  woken_or_not SignalWaitResult.timed_out = ThreadWaitResult.timed_out
  woken_or_not SignalWaitResult.provider_failure = ThreadWaitResult.provider_failure

  -- WaitWithTimeout.
  unfoldable pub wait_with_timeout :
      DedicatedThreadRuntime W → WaitTimeout → DedicatedThreadRuntime W × ThreadWaitResult
  wait_with_timeout rt timeout =
      let (rt', result) = services.wait context timeout rt in (rt', woken_or_not result)

  -- WaitWithBudget.
  unfoldable pub wait_with_budget :
      DedicatedThreadRuntime W → MonotonicWaitBudget → DedicatedThreadRuntime W × ThreadWaitResult
  unfolding remaining wait_with_timeout
  wait_with_budget rt budget =
      let left = remaining services.delta budget (services.monotonic_now rt.world) in
      if is_no_wait left then (rt, ThreadWaitResult.timed_out) else wait_with_timeout rt left

  -- Wait, WaitFor and WaitUntil.
  unfoldable pub wait : DedicatedThreadRuntime W → DedicatedThreadRuntime W × ThreadWaitResult
  unfolding wait_with_timeout
  wait rt = wait_with_timeout rt WaitTimeout.forever

  unfoldable pub wait_for :
      DedicatedThreadRuntime W → ℤ → DedicatedThreadRuntime W × ThreadWaitResult
  unfolding wait_with_budget for_duration
  wait_for rt duration =
      wait_with_budget rt (for_duration duration (services.monotonic_now rt.world))

  unfoldable pub wait_until :
      DedicatedThreadRuntime W → ℕ → DedicatedThreadRuntime W × ThreadWaitResult
  unfolding wait_with_budget until
  wait_until rt deadline = wait_with_budget rt (until deadline)
