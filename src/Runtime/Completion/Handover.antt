-- ===== src/Runtime/Completion/Handover.antt =====
-- The end of a Worker's Task hands the Worker over to the next one.
use edp_threading.Base.{
  ℕ, ◌<◌, ◌≡◌, ◌⊎◌, refl, Bool, true, false, not, ◌||◌, Option, some, List, [], ◌++◌, inl, inr,
  arith, Bool-cases,
}
use edp_threading.Topology.{Topology}
use edp_threading.Task.Control.{TaskInvocationOutcome, state, has_owner}
use edp_threading.Task.Payload.{Adapter, HoldsOutcome}
use edp_threading.Lifecycle.{Outcome, is_success}
use edp_threading.Worker.{is_free, mark_available}
use edp_threading.Facility.Core.{TaskFacilityCore, TaskRecordBinding, is_current_incarnation}
use edp_threading.Facility.Invariant.{Inv, IsExecuting}
use edp_threading.Facility.Update.{UpdatedAt}
use edp_threading.Facility.Completion.{state_of, kept_payload, publish_invocation_outcome_lem}
use edp_threading.Runtime.{Router, TaskFacilityRuntime}
use edp_threading.Runtime.Fairness.{Schedules, schedule_available_workers_lem}
use edp_threading.Runtime.Completion.{
  Mutex, TaskFacilityCompletionResult, hand_over, complete_locked, complete_worker_task,
  release_completed, released, scheduled_failure, is_available,
}
use edp_threading.Runtime.Completion.Reclaiming.{reclaim_if_quiescent-Inv}
use edp_threading.Runtime.Completion.Effects.{
  IsTidied, RunsPass, reclaim_if_quiescent-IsTidied, hand_over-RunsPass,
}

module _ {W : Type 0} (t : Topology) (waiter_capacity : ℕ) (router : Router W)
    (mutex : Mutex W) where
  -- How a hand-over ends, with whether a call has failed.
  abbrev HandsOver : List ℕ → Option (TaskFacilityRuntime t W × Bool) → Type 0
  HandsOver q r =
      (out : TaskFacilityRuntime t W × Bool) × (granted : List ℕ) × (rest : List ℕ) × (r ≡ some out)
      × (q ≡ granted ++ rest)
      × Inv t out.0.core rest
      × ((rest ≡ []) ⊎ ((b : ℕ) → is_free t out.0.workers b ≡ false) ⊎ (out.1 ≡ true))

  or_failed :
      (failed : Bool) (o : Outcome) (e : ℕ)
      → o ≡ Outcome.failed e
      → (failed || not (is_success o)) ≡ true
  or_failed failed o e h = ground arith

  scheduled-HandsOver :
      (q : List ℕ) (failed : Bool) (r : Option (TaskFacilityRuntime t W × Outcome))
      → Schedules t waiter_capacity router q r
      → HandsOver q (scheduled_failure t waiter_capacity router mutex failed r)
  scheduled-HandsOver q failed r (out, granted, rest, same, split, (v, inl empty)) =
      ((out.0, failed || not (is_success out.1)), granted, rest, rw same, split, v, inl empty)
  scheduled-HandsOver q failed r (out, granted, rest, same, split, (v, inr (inl busy))) =
      ((out.0, failed || not (is_success out.1)), granted, rest, rw same, split, v, inr (inl busy))
  scheduled-HandsOver q failed r (out, granted, rest, same, split, (v, inr (inr (e, bad)))) = (
    (out.0, failed || not (is_success out.1)),
    granted,
    rest,
    rw same,
    split,
    v,
    inr (inr (or_failed failed out.1 e bad)),
  )

  hand_over-HandsOver :
      (rt : TaskFacilityRuntime t W) (q : List ℕ) (context : ℕ) (failed : Bool)
      → Inv t rt.core q
      → HandsOver q (hand_over t waiter_capacity router mutex rt context failed)
  unfolding hand_over
  hand_over-HandsOver rt q context failed v =
      elim (Bool-cases (is_available (mark_available t rt.workers context).1)) [
        | inl marked ↦
            rw (marked, hand_over)
              (scheduled-HandsOver q failed _ (
                schedule_available_workers_lem t waiter_capacity router
                  (record rt { workers = (mark_available t rt.workers context).0 }) q v))
        | inr outside ↦ (
          (record rt { workers = (mark_available t rt.workers context).0 }, true),
          [],
          q,
          rw (outside, hand_over) refl,
          refl,
          v,
          inr (inr refl),
        )
      ]

  module _ (rt : TaskFacilityRuntime t W) (q : List ℕ) (context : ℕ) (b : TaskRecordBinding)
      (outcome : TaskInvocationOutcome) where
    -- A core in which the Task has ended with its outcome, and perhaps left its record.
    abbrev pub HasEnded : TaskFacilityCore t → Type 0
    HasEnded d =
        let owner = has_owner (rt.core.records b.record_index).control in
        (published : TaskFacilityCore t) × UpdatedAt t rt.core q b.record_index (state_of outcome)
          owner (kept_payload owner (rt.core.records b.record_index).payload) published
        × IsTidied t waiter_capacity router mutex b.record_index q published d

    -- What CompleteWorkerTask returns.
    abbrev pub Returned : TaskFacilityRuntime t W × TaskFacilityCompletionResult → Type 0
    Returned out =
        (((mutex.acquire rt.world).1 ≡ false)
          × (out ≡ (
            record rt { world = (mutex.acquire rt.world).0 },
            TaskFacilityCompletionResult.provider_failure,
          )))
        ⊎ ((mid : TaskFacilityRuntime t W) × (granted : List ℕ) × (rest : List ℕ) × HasEnded
              mid.core
            × (mid.workers ≡ rt.workers)
            × RunsPass t waiter_capacity router mutex context mid out.0
            × (q ≡ granted ++ rest)
            × Inv t out.0.core rest
            × ((rest ≡ [])
                ⊎ ((a : ℕ) → is_free t out.0.workers a ≡ false)
                ⊎ (out.1 ≡ TaskFacilityCompletionResult.provider_failure)))

    abbrev pub Completes : Option (TaskFacilityRuntime t W × TaskFacilityCompletionResult) → Type 0
    Completes r =
        (out : TaskFacilityRuntime t W × TaskFacilityCompletionResult) × (r ≡ some out)
        × Returned out

    ends_of :
        (out : TaskFacilityRuntime t W × Bool) (rest : List ℕ)
        → (rest ≡ []) ⊎ ((a : ℕ) → is_free t out.0.workers a ≡ false) ⊎ (out.1 ≡ true)
        → (rest ≡ [])
          ⊎ ((a : ℕ) → is_free t (released t waiter_capacity router mutex out).0.workers a ≡ false)
          ⊎ ((released t waiter_capacity router mutex out).1
              ≡ TaskFacilityCompletionResult.provider_failure)
    ends_of out rest (inl empty) = inl empty
    ends_of out rest (inr (inl busy)) = inr (inl busy)
    ends_of out rest (inr (inr failed)) = inr (inr (rw failed refl))

    handed-Completes :
        (mid : TaskFacilityRuntime t W) (failed : Bool)
        → HasEnded mid.core
        → mid.workers ≡ rt.workers
        → Inv t mid.core q
        → Completes (
            release_completed t waiter_capacity router mutex
              (hand_over t waiter_capacity router mutex mid context failed))
    handed-Completes mid failed ended workers v =
        let (out, granted, rest, e, split, valid, ends) =
          hand_over-HandsOver mid q context failed v in
        (
          released t waiter_capacity router mutex out,
          rw e refl,
          inr (
            mid,
            granted,
            rest,
            ended,
            workers,
            hand_over-RunsPass t waiter_capacity router mutex mid context failed out e,
            split,
            valid,
            ends_of out rest ends,
          ),
        )

    module _ (a : Adapter) (v : Inv t rt.core q) (below : b.record_index < t.records)
        (taken : t.availability.is_set rt.core.availability b.record_index ≡ false)
        (runs : IsExecuting (state (rt.core.records b.record_index).control))
        (current : is_current_incarnation t rt.core b.record_index b.phase ≡ true)
        (ops : (rt.core.records b.record_index).operations ≡ some a)
        (holds : HoldsOutcome a outcome (rt.core.records b.record_index).payload) where
      locked-Completes :
          (w : W)
          → Completes (
              release_completed t waiter_capacity router mutex (
                complete_locked t waiter_capacity router mutex
                  (record rt { world = w })
                  context
                  b
                  outcome))
      unfolding complete_locked
      locked-Completes w =
          let published =
            publish_invocation_outcome_lem t rt.core q b.record_index v below taken runs b.phase a
              outcome current ops holds in
          let tidied =
            reclaim_if_quiescent-IsTidied t waiter_capacity router mutex _ q b published.valid
              below in
          handed-Completes _ _ (_, published, tidied.0) tidied.1
            (reclaim_if_quiescent-Inv t waiter_capacity router mutex _ q b published.valid below)

      -- CompleteWorkerTask, for a current and executing record of a well-formed core whose
      -- storage is as an invocation with this outcome leaves it, always ends, for any
      -- mutex, router, leases and waiters. Without the lock it answers ProviderFailure and
      -- changes neither the core nor the leases. With it, the Task first ends: its record
      -- has the state of the outcome, and its result stays for the owner and for nobody
      -- else; the record may be reclaimed, if nobody owns it. Then the Worker of the
      -- context is marked available, in the leases as they were, and the scheduling pass
      -- runs on the core and the leases so changed; what it leaves of both is what is left
      -- in the end. For a context that is none of the facility's Workers there is no pass.
      -- The pass takes Tasks off the front of the queue in order and leaves the core well
      -- formed with the rest; when the answer is Completed, no Task is queued or no Worker
      -- of the facility is free.
      pub complete_worker_task_lem :
          Completes (complete_worker_task t waiter_capacity router mutex rt context b outcome)
      unfolding complete_worker_task
      complete_worker_task_lem = elim (Bool-cases (mutex.acquire rt.world).1) [
        | inl acquired ↦
            let (out, e, why) = locked-Completes (mutex.acquire rt.world).0 in
            (out, rw (acquired, complete_worker_task) e, why)
        | inr refused ↦ (
          (
            record rt { world = (mutex.acquire rt.world).0 },
            TaskFacilityCompletionResult.provider_failure,
          ),
          rw (refused, complete_worker_task) refl,
          inl (refused, refl),
        )
      ]
