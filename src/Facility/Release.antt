-- ===== src/Facility/Release.antt =====
-- What TaskFacilityCore::ReleaseOwner guarantees to the owner of a record.
use edp_threading.Base.{ℕ, ◌<◌, ◌≡◌, refl, Bool, true, false, List, elem, without}
use edp_threading.Topology.{Topology}
use edp_threading.Task.Control.{
  TaskOperationalState, TaskControl, state, has_owner, phase, release_owner,
}
use edp_threading.Task.Control.Laws.{Fields, IsByte, release_owner_lem}
use edp_threading.Task.Payload.{Payload}
use edp_threading.Facility.Core.{
  TaskFacilityCore, TaskReleaseEffect, set_record, withdraw_queued, release_in, release_task_owner,
  is_current_incarnation,
}
use edp_threading.Facility.Invariant.{
  Inv, AllocatedOk, AllocatedOk-released, AllocatedOk-destroyed, AllocatedOk-unnamed,
  RecordOk-owned,
}
use edp_threading.Facility.Update.{UpdatedAt, set_record-UpdatedAt}
use edp_threading.Facility.Withdrawal.{WithdrawnAt, withdraw_queued-WithdrawnAt}

pub released-Fields :
    (control : TaskControl) (s : TaskOperationalState)
    → IsByte control
    → state control ≡ s
    → Fields (release_owner control) s false (phase control)
released-Fields control s byte e = rw (← e) (release_owner_lem control byte)

module _ (t : Topology) where
  -- What releasing an owned record does, by its operational state.
  abbrev pub ReleasesIn :
      TaskFacilityCore t
      → List ℕ
      → ℕ
      → TaskOperationalState
      → TaskFacilityCore t × TaskReleaseEffect
      → Type 0
  ReleasesIn c q i TaskOperationalState.queued r =
      ((d : TaskFacilityCore t) × WithdrawnAt t c q i d
        × UpdatedAt t d (without i q) i TaskOperationalState.cancelled false Payload.raw r.0)
      × (r.1 ≡ TaskReleaseEffect.terminal_published)
  ReleasesIn c q i TaskOperationalState.completed r =
      UpdatedAt t c q i TaskOperationalState.completed false Payload.raw r.0
      × (r.1 ≡ TaskReleaseEffect.ownership_released)
  ReleasesIn c q i TaskOperationalState.unnamed r = ⊥
  ReleasesIn c q i s r =
      UpdatedAt t c q i s false (c.records i).payload r.0
      × (r.1 ≡ TaskReleaseEffect.ownership_released)

  module _ (c : TaskFacilityCore t) (q : List ℕ) (i : ℕ) (v : Inv t c q) (below : i < t.records)
      (owned : has_owner (c.records i).control ≡ true) where
    pub owned_taken : t.availability.is_set c.availability i ≡ false
    owned_taken =
        RecordOk-owned (t.availability.is_set c.availability i) (elem i q)
          (state (c.records i).control) (c.records i).payload (c.records i).operations
          (rw owned at (v.ok i below).0)

    pub owned_ok :
        (s : TaskOperationalState)
        → state (c.records i).control ≡ s
        → AllocatedOk (elem i q) s true (c.records i).payload (c.records i).operations
    owned_ok s e = rw (owned_taken, owned, e) at (v.ok i below).0

    keep :
        (s : TaskOperationalState)
        → state (c.records i).control ≡ s
        → AllocatedOk (elem i q) s false (c.records i).payload (c.records i).operations
        → UpdatedAt t c q i s false (c.records i).payload (
            set_record t c i
              (record (c.records i) { control = release_owner (c.records i).control }))
    keep s e ok =
        set_record-UpdatedAt t c q i s false (c.records i).payload
          (release_owner (c.records i).control) v owned_taken
          (released-Fields (c.records i).control s (v.ok i below).1 e) ok

    queued_released :
        state (c.records i).control ≡ TaskOperationalState.queued
        → ReleasesIn c q i TaskOperationalState.queued
            (release_in t c i TaskOperationalState.queued)
    queued_released e =
        let w : WithdrawnAt t c q i (withdraw_queued t c i) =
          withdraw_queued-WithdrawnAt t c q i v below owned_taken e in
        let d = withdraw_queued t c i in
        let taken : t.availability.is_set d.availability i ≡ false =
          rw w.availability owned_taken in
        let old = w.valid.ok i below in
        (
          (
            d,
            w,
            rw (← w.is_destroyed) (
                set_record-UpdatedAt t d (without i q) i TaskOperationalState.cancelled false
                  (d.records i).payload (release_owner (d.records i).control) w.valid taken
                  (released-Fields (d.records i).control TaskOperationalState.cancelled old.1
                    w.is_cancelled)
                  ((AllocatedOk-released (elem i (without i q)) (d.records i).payload
                      (d.records i).operations).2
                    (rw (taken, w.is_cancelled, w.keeps_owner, owned) at old.0))),
          ),
          refl,
        )

    release_in-ReleasesIn :
        (s : TaskOperationalState)
        → state (c.records i).control ≡ s
        → ReleasesIn c q i s (release_in t c i s)
    release_in-ReleasesIn TaskOperationalState.queued e = queued_released e
    release_in-ReleasesIn TaskOperationalState.running e = (
      keep TaskOperationalState.running e (
          (AllocatedOk-released (elem i q) (c.records i).payload (c.records i).operations).0
            (owned_ok TaskOperationalState.running e)),
      refl,
    )
    release_in-ReleasesIn TaskOperationalState.running_cancel_requested e = (
      keep TaskOperationalState.running_cancel_requested e (
          (AllocatedOk-released (elem i q) (c.records i).payload (c.records i).operations).1
            (owned_ok TaskOperationalState.running_cancel_requested e)),
      refl,
    )
    release_in-ReleasesIn TaskOperationalState.completed e =
        let gone =
          AllocatedOk-destroyed (elem i q) (c.records i).payload (c.records i).operations
            (owned_ok TaskOperationalState.completed e) in
        (
          rw gone.0 (
              set_record-UpdatedAt t c q i TaskOperationalState.completed false Payload.raw
                (release_owner (c.records i).control) v owned_taken
                (released-Fields (c.records i).control TaskOperationalState.completed
                  (v.ok i below).1 e)
                gone.1),
          refl,
        )
    release_in-ReleasesIn TaskOperationalState.cancelled e = (
      keep TaskOperationalState.cancelled e (
          (AllocatedOk-released (elem i q) (c.records i).payload (c.records i).operations).2
            (owned_ok TaskOperationalState.cancelled e)),
      refl,
    )
    release_in-ReleasesIn TaskOperationalState.unnamed e =
        AllocatedOk-unnamed (elem i q) true (c.records i).payload (c.records i).operations
          (owned_ok TaskOperationalState.unnamed e)

    -- ReleaseOwner of a current and owned record of a well-formed core: a Queued record is
    -- withdrawn as Cancelled, its callable destroyed, and then disowned, and terminal
    -- publication is reported; a Completed record has its result destroyed and is disowned;
    -- a Running, cancellation-requested or Cancelled record is disowned only. The Phase, the
    -- operations and every other record stand outside of a withdrawal, the core stays well
    -- formed, and the state bits hold a named state.
    pub release_task_owner_lem :
        (p : Bool)
        → is_current_incarnation t c i p ≡ true
        → ReleasesIn c q i (state (c.records i).control) (release_task_owner t c i p)
    unfolding release_task_owner
    release_task_owner_lem p current =
        rw (current, release_task_owner) (release_in-ReleasesIn (state (c.records i).control) refl)
