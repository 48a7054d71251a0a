-- ===== src/Runtime/Dispatch/Laws.antt =====
-- src/threading/detail/TaskFacilityRuntime.hpp: how a turn of Dispatch leaves the lock.
use edp_threading.Base.{ℕ, ◌<◌, ◌≡◌, ◌≢◌, ◌⊎◌, Bool, true, false, ◌||◌, List, []}
use edp_threading.Topology.{Topology}
use edp_threading.Types.{TaskDispatchStatus, TaskDispatchPolicy}
use edp_threading.Task.Control.{has_owner, phase}
use edp_threading.Task.Payload.{Adapter}
use edp_threading.Worker.{is_any_available}
use edp_threading.Facility.Core.{
  TaskFacilityCore, TaskRecordBinding, TaskAdmissionCoreResult, admit, has_record_capacity,
  has_worker_grant, is_current_incarnation,
}
use edp_threading.Runtime.{Router, TaskFacilityRuntime}
use edp_threading.Runtime.Completion.{Mutex}
use edp_threading.Runtime.Handles.Laws.{IsValid, Disowned}
use edp_threading.Runtime.Dispatch.{TaskDispatchResult, DispatchTurn, is_abandoning, is_timed}

module _ (t : Topology) where
  -- The Task of a binding is in its record, and has its owner.
  abbrev pub IsHeld : TaskFacilityCore t → TaskRecordBinding → Type 0
  IsHeld c b =
      IsValid t c
      × (b.record_index < t.records)
      × (has_owner (c.records b.record_index).control ≡ true)
      × (is_current_incarnation t c b.record_index b.phase ≡ true)

module _ {W : Type 0} (t : Topology) (waiter_capacity : ℕ) (router : Router W) (mutex : Mutex W)
    (policy : TaskDispatchPolicy) (managed : Bool) (start : TaskFacilityRuntime t W) (q : List ℕ)
    (f : ℕ) (a : Adapter) where
  -- AbandonImmediately admits only with a free Worker and nothing queued.
  abbrev pub IsPermitted : Type 0
  IsPermitted =
      (is_abandoning policy ≡ false) ⊎ ((is_any_available t start.workers ≡ true) × (q ≡ []))

  -- The Task that the turn admits.
  abbrev pub IsAdmitted : TaskRecordBinding → Type 0
  IsAdmitted b = ((admit t start.core f a).1 ≡ TaskAdmissionCoreResult.admitted b) × IsPermitted

  -- Why no Task was admitted.
  abbrev pub IsRefused : TaskDispatchStatus → Type 0
  IsRefused why =
      ((is_abandoning policy ≡ true)
        × (why ≡ TaskDispatchStatus.unavailable)
        × ((has_record_capacity t start.core ≡ false)
            ⊎ (is_any_available t start.workers ≡ false)
            ⊎ (q ≢ [])))
      ⊎ ((is_abandoning policy ≡ false)
          × (why ≡ TaskDispatchStatus.interrupted)
          × (managed ≡ false)
          × (has_record_capacity t start.core ≡ false))

  -- The status of an admitted Task that was given up.
  abbrev pub IsGivenUp : TaskDispatchStatus → Type 0
  IsGivenUp why =
      (why ≡ TaskDispatchStatus.interrupted)
      ⊎ ((why ≡ TaskDispatchStatus.unavailable) × (is_abandoning policy ≡ true))

  -- How a turn leaves the lock.
  abbrev pub Leaves : DispatchTurn (TaskFacilityRuntime t W) → Type 0
  Leaves (DispatchTurn.returned rt (TaskDispatchResult.task b)) =
      IsAdmitted b
      × IsHeld t rt.core b
      × (((is_abandoning policy || is_timed policy) ≡ false)
          ⊎ (has_worker_grant t rt.core b.record_index b.phase ≡ true))
  Leaves (DispatchTurn.returned rt (TaskDispatchResult.status why)) =
      ((rt.core ≡ start.core) × IsRefused why)
      ⊎ ((b : TaskRecordBinding) × IsAdmitted b × Disowned t b.record_index rt.core × IsGivenUp why)
  Leaves (DispatchTurn.record_wanted rt) =
      (rt.core ≡ start.core)
      × (has_record_capacity t start.core ≡ false)
      × (is_abandoning policy ≡ false)
      × (managed ≡ true)
  Leaves (DispatchTurn.worker_wanted rt b) =
      IsAdmitted b
      × IsHeld t rt.core b
      × (has_worker_grant t rt.core b.record_index b.phase ≡ false)
      × (is_timed policy ≡ true)
      × (managed ≡ true)
  Leaves (DispatchTurn.again rt) = ⊥
  Leaves DispatchTurn.stuck = ⊥
