-- ===== src/Runtime/Waiting.antt =====
-- src/threading/detail/TaskFacilityRuntime.hpp: the three waits of a facility, for the end of a Task,
-- for a free record and for a Worker, on the common loop.
pub mod Ends
use edp_threading.Base.{ℕ, Bool, true, false, not, Option, none, some, if◌then◌else◌}
use edp_threading.Topology.{Topology}
use edp_threading.Types.{TaskWaitResult, TaskDispatchStatus}
use edp_threading.Wait.Budget.{
  WaitTimeout, Delta, MonotonicWaitBudget, ℤ, forever_budget, for_duration, until,
}
use edp_threading.Wait.Loop.{SignalWaitResult, Environment, Target, Verdict, Course, wait_until}
use edp_threading.Wait.Registration.{
  WaitRegistrationStatus, RegistrationSet, task_wait, admission_wait, inactive_context, register,
  unregister, registered_slot,
}
use edp_threading.Facility.Core.{
  TaskRecordBinding, is_terminal, has_worker_grant, has_record_capacity,
}
use edp_threading.Runtime.{Router, TaskFacilityRuntime}
use edp_threading.Runtime.Completion.{Mutex}
use edp_threading.Runtime.Handles.{unlock, unregister_waiter, withdraw_unreturned_dispatch}

-- What goes on around a wait: `others` is what other threads do until the lock is granted.
pub record Surroundings (t : Topology) (W : Type 0) : Type 0 where
  pub others : TaskFacilityRuntime t W → TaskFacilityRuntime t W
  pub wait : ℕ → WaitTimeout → TaskFacilityRuntime t W → TaskFacilityRuntime t W × SignalWaitResult
  pub is_interrupted : ℕ → W → W × Bool
  pub monotonic_now : W → ℕ
  pub delta : Delta

module _ {W : Type 0} (t : Topology) (waiter_capacity : ℕ) (router : Router W) (mutex : Mutex W)
    (around : Surroundings t W) where
  abbrev pub acquire_after : TaskFacilityRuntime t W → TaskFacilityRuntime t W × Bool
  acquire_after rt =
      let rt' = around.others rt in
      let (w, acquired) = mutex.acquire rt'.world in (record rt' { world = w }, acquired)

  abbrev pub asked_to_stop : ℕ → TaskFacilityRuntime t W → TaskFacilityRuntime t W × Bool
  asked_to_stop context rt =
      let (w, stop) = around.is_interrupted context rt.world in (record rt { world = w }, stop)

  abbrev pub environment : Environment (TaskFacilityRuntime t W)
  environment = record {
    acquire = acquire_after;
    release = unlock t waiter_capacity router mutex;
    wait = around.wait;
    is_interrupted = asked_to_stop;
    monotonic_now = λ rt. around.monotonic_now rt.world;
    delta = around.delta;
  }

  -- A waiter for the record of a binding.
  abbrev pub enrol_waiter :
      TaskRecordBinding → ℕ → TaskFacilityRuntime t W → TaskFacilityRuntime t W × Option ℕ
  enrol_waiter b context rt =
      let (waiters, slot) = registered_slot (
        register (task_wait (inactive_context t.index t.contexts)) waiter_capacity rt.waiters
          (record {
            record_index = b.record_index;
            phase = b.phase;
            waiting_context_index = context;
          })
          0) in
      (record rt { waiters = waiters }, slot)

  -- What WaitWithBudget waits for.
  abbrev pub task_finishes : TaskRecordBinding → ℕ → Target (TaskFacilityRuntime t W)
  task_finishes b context = record {
    holds = λ rt. is_terminal t rt.core b.record_index b.phase;
    enrol = enrol_waiter b context;
    refuse = λ rt. rt;
    settle = λ slot rt. (unregister_waiter t waiter_capacity router mutex slot rt b).0;
    give_up = λ slot rt. (unregister_waiter t waiter_capacity router mutex slot rt b).0;
  }

  abbrev pub unregister_admission : ℕ → TaskFacilityRuntime t W → TaskFacilityRuntime t W
  unregister_admission slot rt = record rt {
    admission_waiters =
        unregister (admission_wait (inactive_context t.index t.contexts)) waiter_capacity
          rt.admission_waiters slot;
  }

  -- What WaitForAdmissionCapacity waits for.
  abbrev pub record_is_free : ℕ → Target (TaskFacilityRuntime t W)
  record_is_free context = record {
    holds = λ rt. has_record_capacity t rt.core;
    enrol = λ rt.
        let (waiters, slot) = registered_slot (
          register (admission_wait (inactive_context t.index t.contexts)) waiter_capacity
            rt.admission_waiters (record { waiting_context_index = context }) 0) in
        (record rt { admission_waiters = waiters }, slot);
    refuse = λ rt. rt;
    settle = unregister_admission;
    give_up = unregister_admission;
  }

  -- `_waiters.Unregister` and then WithdrawUnreturnedDispatch.
  abbrev pub give_up_dispatch :
      TaskRecordBinding → ℕ → TaskFacilityRuntime t W → TaskFacilityRuntime t W
  give_up_dispatch b slot rt =
      (withdraw_unreturned_dispatch t waiter_capacity router mutex
        (record rt {
          waiters =
              unregister (task_wait (inactive_context t.index t.contexts)) waiter_capacity
                rt.waiters slot;
        })
        b).0

  -- What WaitForWorkerGrant waits for.
  abbrev pub worker_is_granted : TaskRecordBinding → ℕ → Target (TaskFacilityRuntime t W)
  worker_is_granted b context = record {
    holds = λ rt. has_worker_grant t rt.core b.record_index b.phase;
    enrol = enrol_waiter b context;
    refuse = λ rt. (withdraw_unreturned_dispatch t waiter_capacity router mutex rt b).0;
    settle = λ slot rt. (unregister_waiter t waiter_capacity router mutex slot rt b).0;
    give_up = give_up_dispatch b;
  }

  abbrev pub wait_result : Verdict → TaskWaitResult
  wait_result Verdict.fulfilled = TaskWaitResult.finished
  wait_result Verdict.expired = TaskWaitResult.timed_out
  wait_result Verdict.interrupted = TaskWaitResult.interrupted

  abbrev pub dispatch_status : Verdict → TaskDispatchStatus
  dispatch_status Verdict.fulfilled = TaskDispatchStatus.succeeded
  dispatch_status Verdict.expired = TaskDispatchStatus.timed_out
  dispatch_status Verdict.interrupted = TaskDispatchStatus.interrupted

  abbrev pub answered :
      {A : Type 0}
      → (Verdict → A)
      → Option (TaskFacilityRuntime t W × Verdict)
      → Option (TaskFacilityRuntime t W × A)
  answered result none = none
  answered result (some (rt, verdict)) = some (rt, result verdict)

  -- WaitWithBudget on a context, if there is one.
  unfoldable pub wait_on :
      TaskRecordBinding
      → MonotonicWaitBudget
      → ℕ
      → TaskFacilityRuntime t W
      → Option ℕ
      → Option (TaskFacilityRuntime t W × TaskWaitResult)
  unfolding wait_until register is_terminal unregister_waiter
  wait_on b budget fuel rt none = some (rt, TaskWaitResult.interrupted)
  wait_on b budget fuel rt (some context) =
      let (rt', stop) = asked_to_stop context rt in
      if stop
      then some (rt', TaskWaitResult.interrupted)
      else answered wait_result (
          wait_until environment (task_finishes b context) context budget Course.rechecking fuel
            rt')

  -- WaitWithBudget, on fuel for its loop: `none` says that it has not ended.
  unfoldable pub wait_with_budget :
      TaskRecordBinding
      → MonotonicWaitBudget
      → ℕ
      → TaskFacilityRuntime t W
      → Option (TaskFacilityRuntime t W × TaskWaitResult)
  unfolding wait_on
  wait_with_budget b budget fuel rt = wait_on b budget fuel rt router.current_context_index

  -- Wait, WaitFor and WaitUntil.
  unfoldable pub wait :
      TaskRecordBinding
      → ℕ
      → TaskFacilityRuntime t W
      → Option (TaskFacilityRuntime t W × TaskWaitResult)
  unfolding wait_with_budget forever_budget
  wait b fuel rt = wait_with_budget b forever_budget fuel rt

  unfoldable pub wait_for :
      TaskRecordBinding
      → ℤ
      → ℕ
      → TaskFacilityRuntime t W
      → Option (TaskFacilityRuntime t W × TaskWaitResult)
  unfolding wait_with_budget for_duration
  wait_for b duration fuel rt =
      wait_with_budget b (for_duration duration (around.monotonic_now rt.world)) fuel rt

  unfoldable pub wait_until_deadline :
      TaskRecordBinding
      → ℕ
      → ℕ
      → TaskFacilityRuntime t W
      → Option (TaskFacilityRuntime t W × TaskWaitResult)
  unfolding wait_with_budget until
  wait_until_deadline b deadline fuel rt = wait_with_budget b (until deadline) fuel rt

  -- WaitForAdmissionCapacity.
  unfoldable pub wait_for_admission_capacity :
      ℕ
      → MonotonicWaitBudget
      → ℕ
      → TaskFacilityRuntime t W
      → Option (TaskFacilityRuntime t W × TaskDispatchStatus)
  unfolding wait_until register has_record_capacity unregister
  wait_for_admission_capacity context budget fuel rt =
      answered dispatch_status
        (wait_until environment (record_is_free context) context budget Course.locked fuel rt)

  -- WaitForWorkerGrant.
  unfoldable pub wait_for_worker_grant :
      ℕ
      → TaskRecordBinding
      → MonotonicWaitBudget
      → ℕ
      → TaskFacilityRuntime t W
      → Option (TaskFacilityRuntime t W × TaskDispatchStatus)
  unfolding wait_until register has_worker_grant unregister_waiter withdraw_unreturned_dispatch
  wait_for_worker_grant context b budget fuel rt =
      answered dispatch_status
        (wait_until environment (worker_is_granted b context) context budget Course.locked fuel rt)
