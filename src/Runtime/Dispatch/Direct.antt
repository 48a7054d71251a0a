-- ===== src/Runtime/Dispatch/Direct.antt =====
-- src/threading/detail/TaskFacilityRuntime.hpp: Admit and WorkerBecameAvailable.
use edp_threading.Base.{ℕ, Option, none, some, if◌then◌else◌}
use edp_threading.Topology.{Topology}
use edp_threading.Task.Payload.{Adapter}
use edp_threading.Lifecycle.{Outcome, is_success}
use edp_threading.Worker.{WorkerAvailabilityResult, mark_available}
use edp_threading.Facility.Core.{TaskFacilityCore, TaskAdmissionCoreResult, admit}
use edp_threading.Runtime.{Router, TaskFacilityRuntime, schedule_available_workers}
use edp_threading.Runtime.Completion.{Mutex}
use edp_threading.Runtime.Handles.{unlock}

module _ {W : Type 0} (t : Topology) (waiter_capacity : ℕ) (router : Router W)
    (mutex : Mutex W) where
  abbrev pub unlocked :
      {A : Type 0}
      → A
      → Option (TaskFacilityRuntime t W × Outcome)
      → Option (TaskFacilityRuntime t W × A)
  unlocked answer none = none
  unlocked answer (some (rt, scheduled)) = some (unlock t waiter_capacity router mutex rt, answer)

  abbrev pub admitted_by :
      TaskFacilityRuntime t W
      → TaskFacilityCore t × TaskAdmissionCoreResult
      → Option (TaskFacilityRuntime t W × TaskAdmissionCoreResult)
  admitted_by rt (core, TaskAdmissionCoreResult.capacity_unavailable) = some (
    unlock t waiter_capacity router mutex (record rt { core = core }),
    TaskAdmissionCoreResult.capacity_unavailable,
  )
  admitted_by rt (core, TaskAdmissionCoreResult.admitted b) =
      unlocked (TaskAdmissionCoreResult.admitted b)
        (schedule_available_workers t waiter_capacity router (record rt { core = core }))

  -- Admit; `none` says that its scheduling pass has not ended.
  unfoldable pub admit_task :
      TaskFacilityRuntime t W
      → ℕ
      → Adapter
      → Option (TaskFacilityRuntime t W × TaskAdmissionCoreResult)
  unfolding schedule_available_workers
  admit_task rt f a =
      let (w, acquired) = mutex.acquire rt.world in
      if acquired
      then admitted_by (record rt { world = w }) (admit t rt.core f a)
      else some (record rt { world = w }, TaskAdmissionCoreResult.capacity_unavailable)

  abbrev pub availability_answered :
      Option (TaskFacilityRuntime t W × Outcome)
      → Option (TaskFacilityRuntime t W × WorkerAvailabilityResult)
  availability_answered none = none
  availability_answered (some (rt, scheduled)) = some (
    unlock t waiter_capacity router mutex rt,
    if is_success scheduled
        then WorkerAvailabilityResult.available
        else WorkerAvailabilityResult.provider_failure,
  )

  abbrev pub availability_marked :
      TaskFacilityRuntime t W
      → WorkerAvailabilityResult
      → Option (TaskFacilityRuntime t W × WorkerAvailabilityResult)
  availability_marked rt WorkerAvailabilityResult.available =
      availability_answered (schedule_available_workers t waiter_capacity router rt)
  availability_marked rt other = some (unlock t waiter_capacity router mutex rt, other)

  -- WorkerBecameAvailable.
  unfoldable pub worker_became_available :
      TaskFacilityRuntime t W → ℕ → Option (TaskFacilityRuntime t W × WorkerAvailabilityResult)
  unfolding schedule_available_workers
  worker_became_available rt context =
      let (w, acquired) = mutex.acquire rt.world in
      let (workers, marked) = mark_available t rt.workers context in
      if acquired
      then availability_marked (record rt { workers = workers; world = w }) marked
      else some (record rt { world = w }, WorkerAvailabilityResult.outside_facility_range)
