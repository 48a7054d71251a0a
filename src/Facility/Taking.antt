-- ===== src/Facility/Taking.antt =====
-- What TaskFacilityCore::TakeResult guarantees to the owner of a record.
use edp_threading.Base.{ℕ, ◌<◌, ◌≡◌, refl, Bool, true, false, Option, none, some, List, elem}
use edp_threading.Topology.{Topology}
use edp_threading.Types.{TaskTakeStatus}
use edp_threading.Task.Control.{TaskOperationalState, state, has_owner, release_owner}
use edp_threading.Task.Payload.{Payload, Adapter, move_result}
use edp_threading.Facility.Core.{
  TaskFacilityCore, Taken, take_completed, take_in, take_result, is_current_incarnation,
}
use edp_threading.Facility.Invariant.{Inv, AllocatedOk}
use edp_threading.Facility.Update.{UpdatedAt, set_record-UpdatedAt}
use edp_threading.Facility.Release.{owned_taken, owned_ok, released-Fields}

-- The result that a completed payload holds; a `void` Task has none.
abbrev pub held_result : Payload → Option ℕ
held_result (Payload.result r) = some r
held_result _ = none

-- Moving the result of an owned and completed record out empties its storage.
moved_out :
    (queued : Bool) (p : Payload) (a : Adapter)
    → AllocatedOk queued TaskOperationalState.completed true p (some a)
    → (move_result a p ≡ (Payload.raw, held_result p))
      × AllocatedOk queued TaskOperationalState.completed false Payload.raw (some a)
moved_out queued (Payload.result r) Adapter.typed h = (refl, (h.0, refl))
moved_out queued Payload.raw Adapter.typed h = absurd h.1
moved_out queued (Payload.callable f) Adapter.typed h = absurd h.1
moved_out queued Payload.corrupt Adapter.typed h = absurd h.1
moved_out queued Payload.raw Adapter.untyped h = (refl, (h.0, refl))
moved_out queued (Payload.result r) Adapter.untyped h = absurd h.1
moved_out queued (Payload.callable f) Adapter.untyped h = absurd h.1
moved_out queued Payload.corrupt Adapter.untyped h = absurd h.1

module _ (t : Topology) where
  -- What taking from an owned record does, by its operational state.
  abbrev pub TakesIn : TaskFacilityCore t → List ℕ → ℕ → TaskOperationalState → Taken t → Type 0
  TakesIn c q i TaskOperationalState.completed r =
      UpdatedAt t c q i TaskOperationalState.completed false Payload.raw r.0
      × (r.1 ≡ TaskTakeStatus.succeeded)
      × (r.2 ≡ held_result (c.records i).payload)
  TakesIn c q i TaskOperationalState.cancelled r = r ≡ (c, TaskTakeStatus.cancelled, none)
  TakesIn c q i _ r = r ≡ (c, TaskTakeStatus.not_completed, none)

  module _ (c : TaskFacilityCore t) (q : List ℕ) (i : ℕ) (v : Inv t c q) (below : i < t.records)
      (owned : has_owner (c.records i).control ≡ true) where
    take_completed-TakesIn :
        (ops : Option Adapter)
        → (c.records i).operations ≡ ops
        → state (c.records i).control ≡ TaskOperationalState.completed
        → TakesIn c q i TaskOperationalState.completed (take_completed t c i ops)
    unfolding take_completed
    take_completed-TakesIn none ops e =
        absurd (rw ops at (owned_ok t c q i v below owned TaskOperationalState.completed e))
    take_completed-TakesIn (some a) ops e =
        let moved =
          moved_out (elem i q) (c.records i).payload a
            (rw ops at (owned_ok t c q i v below owned TaskOperationalState.completed e)) in
        rw moved.0 (
          set_record-UpdatedAt t c q i TaskOperationalState.completed false Payload.raw
              (release_owner (c.records i).control) v (owned_taken t c q i v below owned)
              (released-Fields (c.records i).control TaskOperationalState.completed (v.ok i below).1
                e)
              (rw ops moved.1),
          refl,
          refl,
        )

    take_in-TakesIn :
        (s : TaskOperationalState)
        → state (c.records i).control ≡ s
        → TakesIn c q i s (take_in t c i s)
    take_in-TakesIn TaskOperationalState.completed e =
        take_completed-TakesIn (c.records i).operations refl e
    take_in-TakesIn TaskOperationalState.cancelled e = refl
    take_in-TakesIn TaskOperationalState.queued e = refl
    take_in-TakesIn TaskOperationalState.running e = refl
    take_in-TakesIn TaskOperationalState.running_cancel_requested e = refl
    take_in-TakesIn TaskOperationalState.unnamed e = refl

    -- TakeResult of a current and owned record of a well-formed core: from Completed it
    -- answers Succeeded, moves out the result that the storage held, if any, leaves the
    -- storage empty and the record disowned, and the core well formed; from Cancelled it
    -- answers Cancelled, and from any other state NotCompleted, changing nothing.
    pub take_result_lem :
        (p : Bool)
        → is_current_incarnation t c i p ≡ true
        → TakesIn c q i (state (c.records i).control) (take_result t c i p)
    unfolding take_result
    take_result_lem p current =
        rw (current, take_result) (take_in-TakesIn (state (c.records i).control) refl)
