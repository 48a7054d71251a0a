-- ===== src/Facility/Grant.antt =====
-- What TaskFacilityCore::ClaimNextForWorker guarantees.
use edp_threading.Base.{
  ℕ, ◌≤◌, ◌≡◌, ◌≢◌, ◌∙◌, refl, ap, Bool, true, false, List, [], ◌∷◌, update, arith, ne→==, ==_refl,
}
use edp_threading.Topology.{Topology, Write, write_all, Touches}
use edp_threading.Task.Control.{TaskOperationalState, state, has_owner, phase, set_state}
use edp_threading.Task.Control.Laws.{Fields, set_state_lem}
use edp_threading.Task.Record.{
  TaskRecord, set_execution_context_index, current_execution_context_index, invalid_context,
}
use edp_threading.Task.Record.Laws.{current-set_execution_context_index}
use edp_threading.Facility.Core.{
  TaskFacilityCore, TaskWorkerClaimResult, links, write_records, granted, claim_next_for_worker,
}
use edp_threading.Facility.Invariant.{Inv, IsRecordOk, IsQueued, RecordOk-IsQueued}
use edp_threading.Facility.Frame.{
  SameButScratch, write_records-SameButScratch, SameButScratch-IsRecordOk, taken_out-Inv,
}

module _ (t : Topology) where
  granted-SameButScratch :
      (r : TaskRecord) (context : ℕ)
      → SameButScratch
          (granted t r context)
          (record r { control = set_state r.control TaskOperationalState.running })
  unfolding set_execution_context_index
  granted-SameButScratch r context = (refl, refl, refl)

  granted_ok :
      (available : Bool) (r : TaskRecord) (context : ℕ)
      → IsRecordOk available true r
      → IsRecordOk available false (granted t r context)
  unfolding set_execution_context_index
  granted_ok available r context ok =
      let was : IsQueued available (state r.control) (has_owner r.control) r.payload r.operations =
        RecordOk-IsQueued available (state r.control) (has_owner r.control) r.payload r.operations
          ok.0 in
      let fields = set_state_lem r.control TaskOperationalState.running ok.1 in
      rw (fields.0, was.0, was.3.1, was.4.1) ((refl, tt), fields.3)

  same_scratch :
      (r : TaskRecord) (context : ℕ)
      → context ≤ invalid_context t
      → current_execution_context_index t (granted t r context) ≡ context
  unfolding current_execution_context_index
  same_scratch r context small = current-set_execution_context_index t r context small

  -- Record `i`, the oldest of the queue, now runs on the context; it keeps its owner, Phase,
  -- callable and operations. Every other record keeps all but its queue link, and no
  -- availability bit changes.
  pub record GrantedAt (c : TaskFacilityCore t) (context : ℕ) (i : ℕ) (rest : List ℕ)
      (r : TaskFacilityCore t × TaskWorkerClaimResult) : Type 0 where
    pub is_binding :
        r.1
        ≡ TaskWorkerClaimResult.claimed
            (record { record_index = i; phase = phase (c.records i).control })
    pub valid : Inv t r.0 rest
    pub is_running : state (r.0.records i).control ≡ TaskOperationalState.running
    pub keeps_owner : has_owner (r.0.records i).control ≡ has_owner (c.records i).control
    pub keeps_phase : phase (r.0.records i).control ≡ phase (c.records i).control
    pub keeps_payload : (r.0.records i).payload ≡ (c.records i).payload
    pub keeps_operations : (r.0.records i).operations ≡ (c.records i).operations
    pub runs_there : current_execution_context_index t (r.0.records i) ≡ context
    pub others : (j : ℕ) → i ≢ j → SameButScratch (r.0.records j) (c.records j)
    pub availability : r.0.availability ≡ c.availability

  module _ (c : TaskFacilityCore t) (context i : ℕ) (rest : List ℕ) (v : Inv t c (i ∷ rest))
      (e : t.queue.Ends) (ws : List Write)
      (held : t.queue.Holds e (write_all (links t c.records) ws) rest)
      (touches : Touches t.records (i ∷ rest) ws) where
    abbrev popped : ℕ → TaskRecord
    popped = write_records t c.records ws

    abbrev after : TaskFacilityCore t
    after = record c { records = update popped i (granted t (popped i) context); ends = e }

    after-Inv : Inv t after rest
    after-Inv =
        taken_out-Inv t c e ws (i ∷ rest) rest i (granted t (popped i) context) held touches
          v.distinct.1 (λ j here. v.members j (ground arith)) v.distinct.0
          (granted_ok (t.availability.is_set c.availability i) (popped i) context (
            SameButScratch-IsRecordOk t (t.availability.is_set c.availability i) true (popped i)
              (c.records i) (write_records-SameButScratch t ws c.records i)
              (rw (==_refl i) at (v.ok i (v.members i (rw (==_refl i)))))))
          (λ j lt other. rw other at (v.ok j lt))

    after-GrantedAt :
        context ≤ invalid_context t
        → GrantedAt c context i rest (
          after,
          TaskWorkerClaimResult.claimed
              (record { record_index = i; phase = phase (after.records i).control }),
        )
    after-GrantedAt small = record {
      is_binding =
          ap (λ p. TaskWorkerClaimResult.claimed (record { record_index = i; phase = p }))
            (rw (==_refl i, changed.1) (fields.2 ∙ ap phase kept.1));
      valid = after-Inv;
      is_running = rw (==_refl i, changed.1) fields.0;
      keeps_owner = rw (==_refl i, changed.1) (fields.1 ∙ ap has_owner kept.1);
      keeps_phase = rw (==_refl i, changed.1) (fields.2 ∙ ap phase kept.1);
      keeps_payload = rw (==_refl i) (changed.0 ∙ kept.0);
      keeps_operations = rw (==_refl i) (changed.2 ∙ kept.2);
      runs_there = rw (==_refl i) (same_scratch (popped i) context small);
      others = λ j ne. rw (ne→== i j ne) (write_records-SameButScratch t ws c.records j);
      availability = refl;
    }
      where
        kept : SameButScratch (popped i) (c.records i)
        kept = write_records-SameButScratch t ws c.records i

        changed : SameButScratch (granted t (popped i) context) (record (popped i) {
          control = set_state (popped i).control TaskOperationalState.running;
        })
        changed = granted-SameButScratch (popped i) context

        ok : IsRecordOk (t.availability.is_set c.availability i) true (c.records i)
        ok = rw (==_refl i) at (v.ok i (v.members i (rw (==_refl i))))

        fields :
            Fields
              (set_state (popped i).control TaskOperationalState.running)
              TaskOperationalState.running
              (has_owner (popped i).control)
              (phase (popped i).control)
        fields = set_state_lem (popped i).control TaskOperationalState.running (rw kept.1 ok.1)

  abbrev pub Claims :
      TaskFacilityCore t → ℕ → List ℕ → TaskFacilityCore t × TaskWorkerClaimResult → Type 0
  Claims c context [] r = r ≡ (c, TaskWorkerClaimResult.queue_empty)
  Claims c context (i ∷ rest) r = GrantedAt c context i rest r

  -- ClaimNextForWorker, on a well-formed core and a context that the context index type
  -- represents, answers QueueEmpty and changes nothing when the queue is empty. Otherwise it
  -- grants the oldest queued record: the answer names it with its current Phase, it is Running
  -- on the given context, it keeps its owner, callable and operations, and the core is well
  -- formed with the rest of the queue in order; every other record keeps its payload, control
  -- byte and operations, and no availability bit changes.
  pub claim_lem :
      (c : TaskFacilityCore t) (q : List ℕ) (context : ℕ)
      → Inv t c q
      → context ≤ invalid_context t
      → Claims c context q (claim_next_for_worker t c context)
  unfolding claim_next_for_worker
  claim_lem c [] context v small =
      rw (t.queue.pop_empty c.ends (links t c.records) v.holds, claim_next_for_worker) refl
  claim_lem c (i ∷ rest) context v small =
      let p = t.queue.pop-Holds c.ends (links t c.records) i rest v.holds in
      rw (p.2, claim_next_for_worker) (after-GrantedAt c context i rest v p.0 p.1 p.3 p.4 small)
