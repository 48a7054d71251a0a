-- ===== src/Facility/Core/Admission.antt =====
-- TaskFacilityCore::Admit of src/threading/detail/TaskFacilityCore.hpp.
use edp_threading.Base.{ℕ, Bool, true, false, none, some}
use edp_threading.Topology.{Topology}
use edp_threading.Task.Control.{initialize_queued}
use edp_threading.Task.Payload.{Adapter, construct_callable}
use edp_threading.Facility.Core.State.{
  TaskAdmissionCoreResult, TaskFacilityCore, set_record, queue_push, binding,
}

module _ (t : Topology) where
  -- Admission into record `i`, whose availability bit is cleared.
  unfoldable pub admit_into : TaskFacilityCore t → ℕ → Adapter → ℕ → TaskFacilityCore t
  admit_into c f a i =
      let r = c.records i in
      queue_push t
        (set_record t c i (record r {
          control = initialize_queued r.control;
          payload = construct_callable f r.payload;
          operations = some a;
        }))
        i

  unfoldable pub admit_cleared :
      TaskFacilityCore t → ℕ → Adapter → ℕ → Bool → TaskFacilityCore t × TaskAdmissionCoreResult
  unfolding admit_into
  admit_cleared c f a i true =
      let d = admit_into c f a i in (d, TaskAdmissionCoreResult.admitted (binding t d i))
  admit_cleared c f a i false = (c, TaskAdmissionCoreResult.capacity_unavailable)

  -- Admit.
  unfoldable pub admit :
      TaskFacilityCore t → ℕ → Adapter → TaskFacilityCore t × TaskAdmissionCoreResult
  unfolding admit_cleared
  admit c f a = elim (t.availability.find_first_set c.availability) [
    | none ↦ (c, TaskAdmissionCoreResult.capacity_unavailable)
    | some i ↦
        let (m, done) = t.availability.clear c.availability i in
        admit_cleared (record c { availability = m }) f a i done
  ]
