-- ===== src/Facility/Withdrawal.antt =====
-- What withdrawing a queued record does: the Queued branches of TaskFacilityCore::Cancel and
-- TaskFacilityCore::ReleaseOwner.
use edp_threading.Base.{
  ℕ, ◌<◌, ◌≡◌, ◌≢◌, ◌∙◌, refl, ap, true, false, List, elem, without, arith, ne→==, ==_refl,
  IsDistinct-without, elem-without_self, elem-without_ne, elem_of_without,
}
use edp_threading.Topology.{Topology, write_all, Touches}
use edp_threading.Task.Control.{TaskOperationalState, state, has_owner, phase, set_state}
use edp_threading.Task.Control.Laws.{Fields, set_state_lem}
use edp_threading.Task.Payload.{Payload, destroy_callable, through}
use edp_threading.Task.Record.{
  TaskRecord, set_execution_context_index, current_execution_context_index, invalid_context,
}
use edp_threading.Task.Record.Laws.{current-set_execution_context_index}
use edp_threading.Facility.Core.{
  TaskFacilityCore, links, write_records, queue_remove, withdraw_queued,
}
use edp_threading.Facility.Invariant.{
  Inv, IsRecordOk, IsQueued, RecordOk-IsQueued, RecordOk-queued_state,
}
use edp_threading.Facility.Frame.{SameButScratch, write_records-SameButScratch, taken_out-Inv}

module _ (t : Topology) where
  -- The record of a withdrawn Task.
  abbrev withdrawn : TaskRecord → TaskRecord
  withdrawn r =
      record (set_execution_context_index t
        (record r { payload = through r.operations (λ a. destroy_callable r.payload) })
        (invalid_context t)) { control = set_state r.control TaskOperationalState.cancelled }

  -- Record `i`, which was queued, is cancelled: its callable is destroyed, its context is the
  -- invalid one, it keeps its owner, Phase and operations, and it has left the queue. Every other
  -- record keeps all but its queue link, and no availability bit changes.
  pub record WithdrawnAt (c : TaskFacilityCore t) (q : List ℕ) (i : ℕ) (d : TaskFacilityCore t)
      : Type 0 where
    pub valid : Inv t d (without i q)
    pub is_cancelled : state (d.records i).control ≡ TaskOperationalState.cancelled
    pub keeps_owner : has_owner (d.records i).control ≡ has_owner (c.records i).control
    pub keeps_phase : phase (d.records i).control ≡ phase (c.records i).control
    pub keeps_operations : (d.records i).operations ≡ (c.records i).operations
    pub is_destroyed : (d.records i).payload ≡ Payload.raw
    pub never_granted : current_execution_context_index t (d.records i) ≡ invalid_context t
    pub others : (j : ℕ) → i ≢ j → SameButScratch (d.records j) (c.records j)
    pub availability : d.availability ≡ c.availability

  withdrawn_fields :
      (r : TaskRecord)
      → ((withdrawn r).payload ≡ through r.operations (λ a. destroy_callable r.payload))
        × ((withdrawn r).control ≡ set_state r.control TaskOperationalState.cancelled)
        × ((withdrawn r).operations ≡ r.operations)
  unfolding set_execution_context_index
  withdrawn_fields r = (refl, refl, refl)

  withdrawn_context :
      (r : TaskRecord) → current_execution_context_index t (withdrawn r) ≡ invalid_context t
  unfolding current_execution_context_index set_execution_context_index
  withdrawn_context r = current-set_execution_context_index t r (invalid_context t) (omega arith)

  module _ (c : TaskFacilityCore t) (q : List ℕ) (i : ℕ) (v : Inv t c q) (below : i < t.records)
      (taken : t.availability.is_set c.availability i ≡ false)
      (is_queued : state (c.records i).control ≡ TaskOperationalState.queued) where
    was-IsQueued :
        IsQueued false
          (state (c.records i).control)
          (has_owner (c.records i).control)
          (c.records i).payload
          (c.records i).operations
        × (elem i q ≡ true)
    was-IsQueued =
        let ok = rw (taken, is_queued) at (v.ok i below).0 in
        let here : elem i q ≡ true =
          RecordOk-queued_state (elem i q) (has_owner (c.records i).control) (c.records i).payload
            (c.records i).operations ok in
        (
          RecordOk-IsQueued false (state (c.records i).control) (has_owner (c.records i).control)
              (c.records i).payload (c.records i).operations (rw (taken, here) at (v.ok i below).0),
          here,
        )

    abbrev removed : ℕ → TaskRecord
    removed = write_records t c.records (t.queue.remove c.ends (links t c.records) i).1

    kept : SameButScratch (removed i) (c.records i)
    kept =
        write_records-SameButScratch t (t.queue.remove c.ends (links t c.records) i).1 c.records i

    fields :
        Fields
          (set_state (removed i).control TaskOperationalState.cancelled)
          TaskOperationalState.cancelled
          (has_owner (removed i).control)
          (phase (removed i).control)
    fields =
        set_state_lem (removed i).control TaskOperationalState.cancelled
          (rw kept.1 (v.ok i below).1)

    payload_raw : (withdrawn (removed i)).payload ≡ Payload.raw
    payload_raw =
        rw
          ((withdrawn_fields (removed i)).0, kept.0, kept.2, was-IsQueued.0.3.1, was-IsQueued.0.4.1)
          refl

    withdrawn_ok : IsRecordOk (t.availability.is_set c.availability i) false (withdrawn (removed i))
    withdrawn_ok =
        rw
          (
            taken,
            payload_raw,
            (withdrawn_fields (removed i)).1,
            (withdrawn_fields (removed i)).2,
            fields.0,
            kept.2,
            was-IsQueued.0.4.1,
          )
          ((refl, refl), fields.3)

    pub withdraw_queued-WithdrawnAt : WithdrawnAt c q i (withdraw_queued t c i)
    unfolding withdraw_queued queue_remove
    withdraw_queued-WithdrawnAt = record {
      valid =
          taken_out-Inv t c (t.queue.remove c.ends (links t c.records) i).0
            (t.queue.remove c.ends (links t c.records) i).1 q (without i q) i
            (withdrawn (removed i)) held.0 held.1 (IsDistinct-without i q v.distinct)
            (λ j here. v.members j (elem_of_without i j q here)) (elem-without_self i q v.distinct)
            withdrawn_ok
            (λ j lt other. rw (elem-without_ne i j q (λ e. ground (arith, ==_refl i))) (v.ok j lt));
      is_cancelled = rw (==_refl i, (withdrawn_fields (removed i)).1) fields.0;
      keeps_owner =
          rw (==_refl i, (withdrawn_fields (removed i)).1) (fields.1 ∙ ap has_owner kept.1);
      keeps_phase = rw (==_refl i, (withdrawn_fields (removed i)).1) (fields.2 ∙ ap phase kept.1);
      keeps_operations = rw (==_refl i, (withdrawn_fields (removed i)).2) kept.2;
      is_destroyed = rw (==_refl i) payload_raw;
      never_granted = rw (==_refl i) (withdrawn_context (removed i));
      others = λ j ne. rw (ne→== i j ne) (
          write_records-SameButScratch t (t.queue.remove c.ends (links t c.records) i).1 c.records
            j);
      availability = refl;
    }
      where
        held :
            t.queue.Holds
              (t.queue.remove c.ends (links t c.records) i).0
              (write_all (links t c.records) (t.queue.remove c.ends (links t c.records) i).1)
              (without i q)
            × Touches t.records q (t.queue.remove c.ends (links t c.records) i).1
        held = t.queue.remove-Holds c.ends (links t c.records) q i v.holds was-IsQueued.1
