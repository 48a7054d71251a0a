-- ===== src/Facility/Update.antt =====
-- A write of the control byte and the payload of one allocated record.
use edp_threading.Base.{ℕ, ◌≡◌, ◌≢◌, refl, Bool, false, List, elem, ne→==, ==_refl}
use edp_threading.Topology.{Topology}
use edp_threading.Task.Control.{TaskControl, TaskOperationalState, state, has_owner, phase}
use edp_threading.Task.Control.Laws.{Fields}
use edp_threading.Task.Payload.{Payload}
use edp_threading.Facility.Core.{TaskFacilityCore, set_record}
use edp_threading.Facility.Invariant.{Inv, AllocatedOk}
use edp_threading.Facility.Frame.{set_record_same_scratch-Inv}

module _ (t : Topology) where
  -- Record `i` has the given state, ownership and payload, and keeps its Phase, operations and
  -- scratch field; nothing else changes.
  pub record UpdatedAt (c : TaskFacilityCore t) (q : List ℕ) (i : ℕ) (s : TaskOperationalState)
      (owner : Bool) (p : Payload) (d : TaskFacilityCore t) : Type 0 where
    pub valid : Inv t d q
    pub has_state : state (d.records i).control ≡ s
    pub has_ownership : has_owner (d.records i).control ≡ owner
    pub has_payload : (d.records i).payload ≡ p
    pub keeps_phase : phase (d.records i).control ≡ phase (c.records i).control
    pub keeps_operations : (d.records i).operations ≡ (c.records i).operations
    pub keeps_scratch : (d.records i).scratch ≡ (c.records i).scratch
    pub others : (j : ℕ) → i ≢ j → d.records j ≡ c.records j
    pub availability : d.availability ≡ c.availability
    pub ends : d.ends ≡ c.ends

  pub set_record-UpdatedAt :
      (c : TaskFacilityCore t) (q : List ℕ) (i : ℕ) (s : TaskOperationalState) (owner : Bool)
      (p : Payload) (control : TaskControl)
      → Inv t c q
      → t.availability.is_set c.availability i ≡ false
      → Fields control s owner (phase (c.records i).control)
      → AllocatedOk (elem i q) s owner p (c.records i).operations
      → UpdatedAt c q i s owner p
          (set_record t c i (record (c.records i) { payload = p; control = control }))
  set_record-UpdatedAt c q i s owner p control v taken fields ok = record {
    valid =
        set_record_same_scratch-Inv t c q i
          (record (c.records i) { payload = p; control = control }) v refl
          (rw (taken, fields.0, fields.1) (ok, fields.3));
    has_state = rw (==_refl i) fields.0;
    has_ownership = rw (==_refl i) fields.1;
    has_payload = rw (==_refl i);
    keeps_phase = rw (==_refl i) fields.2;
    keeps_operations = rw (==_refl i);
    keeps_scratch = rw (==_refl i);
    others = λ j ne. rw (ne→== i j ne);
    availability = refl;
    ends = refl;
  }
