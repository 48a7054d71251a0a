-- ===== src/Runtime/Handles.antt =====
-- src/threading/detail/TaskFacilityRuntime.hpp: what the handle of a Task calls, Cancel, ReleaseOwner
-- and TakeResult, and what a wait takes back, UnregisterWaiter and WithdrawUnreturnedDispatch.
pub mod Frame
pub mod Laws
pub mod Settling
use edp_threading.Base.{ℕ, Bool, true, false, not, ◌&&◌, ◌||◌, Option, none, some, if◌then◌else◌}
use edp_threading.Topology.{Topology}
use edp_threading.Types.{TaskState, TaskCancelResult, TaskTakeStatus}
use edp_threading.Lifecycle.{Outcome, is_success}
use edp_threading.Wait.Registration.{task_wait, inactive_context, unregister}
use edp_threading.Facility.Core.{
  TaskFacilityCore, TaskRecordBinding, TaskReleaseEffect, TaskReclaimResult,
  TaskCancellationCoreResult, execution_context_for, public_state, cancel, release_task_owner,
  take_result,
}
use edp_threading.Runtime.{Router, TaskFacilityRuntime, wake_matching_waiters}
use edp_threading.Runtime.Completion.{Mutex, is_reclaim_failure, reclaim_if_quiescent}

pub data TaskFacilityOwnerReleaseResult : Type 0 where
  released provider_failure : TaskFacilityOwnerReleaseResult

abbrev pub is_accepted : TaskCancelResult → Bool
is_accepted TaskCancelResult.accepted = true
is_accepted TaskCancelResult.already_finished = false

abbrev pub is_terminal_published : TaskReleaseEffect → Bool
is_terminal_published TaskReleaseEffect.terminal_published = true
is_terminal_published _ = false

module _ {W : Type 0} (t : Topology) (waiter_capacity : ℕ) (router : Router W)
    (mutex : Mutex W) where
  abbrev pub unlock : TaskFacilityRuntime t W → TaskFacilityRuntime t W
  unlock rt = record rt { world = (mutex.release rt.world).0 }

  -- A function under the lock, or what is answered without it.
  abbrev pub under_lock :
      {A : Type 0}
      → (TaskFacilityRuntime t W → TaskFacilityRuntime t W × A)
      → A
      → TaskFacilityRuntime t W
      → TaskFacilityRuntime t W × A
  under_lock locked fallback rt =
      let (w, acquired) = mutex.acquire rt.world in
      if acquired then locked (record rt { world = w }) else (record rt { world = w }, fallback)

  -- WakeMatchingWaiters, as a step of the runtime, with whether it succeeded.
  unfoldable pub wake_waiters_of :
      TaskFacilityRuntime t W → TaskRecordBinding → TaskFacilityRuntime t W × Bool
  unfolding wake_matching_waiters
  wake_waiters_of rt b =
      let (waiters, (w, woken)) =
        wake_matching_waiters t waiter_capacity router rt.waiters b rt.world in
      (record rt { waiters = waiters; world = w }, is_success woken)

  abbrev pub wake_context : TaskFacilityRuntime t W → Option ℕ → TaskFacilityRuntime t W × Bool
  wake_context rt none = (rt, true)
  wake_context rt (some context) =
      let (w, o) = router.wake context rt.world in (record rt { world = w }, is_success o)

  -- Whom a cancellation wakes; `running` is the context that ran the Task before it.
  abbrev pub notify_cancelled :
      TaskFacilityRuntime t W
      → TaskRecordBinding
      → TaskCancellationCoreResult
      → Option ℕ
      → TaskFacilityRuntime t W
  notify_cancelled rt b r running =
      if r.terminal_published
      then (wake_waiters_of rt b).0
      else if is_accepted r.result
      then (wake_context rt running).0
      else rt

  -- What Cancel does under the lock.
  unfoldable pub cancel_locked :
      TaskFacilityRuntime t W → TaskRecordBinding → TaskFacilityRuntime t W × TaskCancelResult
  unfolding reclaim_if_quiescent wake_waiters_of
  cancel_locked rt b =
      let (core, r) = cancel t rt.core b.record_index b.phase in
      let notified =
        notify_cancelled (record rt { core = core }) b r
          (execution_context_for t rt.core b.record_index b.phase) in
      (unlock (reclaim_if_quiescent t waiter_capacity router mutex notified b).0, r.result)

  -- Cancel.
  unfoldable pub cancel_task :
      TaskFacilityRuntime t W → TaskRecordBinding → TaskFacilityRuntime t W × TaskCancelResult
  unfolding cancel_locked
  cancel_task rt b = under_lock (λ rt'. cancel_locked rt' b) TaskCancelResult.already_finished rt

  abbrev pub wake_if :
      Bool → TaskFacilityRuntime t W → TaskRecordBinding → TaskFacilityRuntime t W × Bool
  wake_if true rt b = wake_waiters_of rt b
  wake_if false rt b = (rt, true)

  -- What ReleaseOwner does under the lock.
  unfoldable pub release_locked :
      TaskFacilityRuntime t W
      → TaskRecordBinding
      → TaskFacilityRuntime t W × TaskFacilityOwnerReleaseResult
  unfolding reclaim_if_quiescent wake_waiters_of
  release_locked rt b =
      let (core, effect) = release_task_owner t rt.core b.record_index b.phase in
      let (notified, woken) =
        wake_if (is_terminal_published effect) (record rt { core = core }) b in
      let (rt', reclamation) = reclaim_if_quiescent t waiter_capacity router mutex notified b in
      let (w, done) = mutex.release rt'.world in
      (
        record rt' { world = w },
        if not woken || is_reclaim_failure reclamation || not done
            then TaskFacilityOwnerReleaseResult.provider_failure
            else TaskFacilityOwnerReleaseResult.released,
      )

  -- ReleaseOwner.
  unfoldable pub release_owner_of :
      TaskFacilityRuntime t W
      → TaskRecordBinding
      → TaskFacilityRuntime t W × TaskFacilityOwnerReleaseResult
  unfolding release_locked
  release_owner_of rt b =
      under_lock (λ rt'. release_locked rt' b) TaskFacilityOwnerReleaseResult.provider_failure rt

  abbrev pub reclaim_taken :
      TaskFacilityRuntime t W → TaskRecordBinding → TaskTakeStatus → TaskFacilityRuntime t W
  reclaim_taken rt b TaskTakeStatus.succeeded =
      (reclaim_if_quiescent t waiter_capacity router mutex rt b).0
  reclaim_taken rt b _ = rt

  -- What TakeResult does under the lock; the result that is moved out goes along.
  unfoldable pub take_locked :
      TaskFacilityRuntime t W
      → TaskRecordBinding
      → TaskFacilityRuntime t W × (TaskTakeStatus × Option ℕ)
  unfolding reclaim_if_quiescent
  take_locked rt b =
      let (core, status, moved) = take_result t rt.core b.record_index b.phase in
      (unlock (reclaim_taken (record rt { core = core }) b status), (status, moved))

  -- TakeResult.
  unfoldable pub take_result_of :
      TaskFacilityRuntime t W
      → TaskRecordBinding
      → TaskFacilityRuntime t W × (TaskTakeStatus × Option ℕ)
  unfolding take_locked
  take_result_of rt b =
      under_lock (λ rt'. take_locked rt' b) (TaskTakeStatus.not_completed, none) rt

  -- UnregisterWaiter.
  unfoldable pub unregister_waiter :
      ℕ → TaskFacilityRuntime t W → TaskRecordBinding → TaskFacilityRuntime t W × TaskReclaimResult
  unfolding reclaim_if_quiescent unregister
  unregister_waiter slot rt b =
      reclaim_if_quiescent t waiter_capacity router mutex
        (record rt {
          waiters =
              unregister (task_wait (inactive_context t.index t.contexts)) waiter_capacity
                rt.waiters slot;
        })
        b

  -- WithdrawUnreturnedDispatch: a Task is given up that no handle was returned for.
  unfoldable pub withdraw_unreturned_dispatch :
      TaskFacilityRuntime t W → TaskRecordBinding → TaskFacilityRuntime t W × TaskReclaimResult
  unfolding reclaim_if_quiescent
  withdraw_unreturned_dispatch rt b =
      reclaim_if_quiescent t waiter_capacity router mutex
        (record rt { core = (release_task_owner t rt.core b.record_index b.phase).0 }) b
