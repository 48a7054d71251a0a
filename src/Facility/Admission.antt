-- ===== src/Facility/Admission.antt =====
-- What TaskFacilityCore::Admit guarantees.
pub mod Placement
use edp_threading.Base.{
  ℕ, ◌<◌, ◌≡◌, ◌≢◌, ◌⊎◌, refl, ap, true, false, not, some, List, [], ◌∷◌, ◌++◌, ◌==◌, update, elem,
  arith, Bool-cases, inl, inr, ==_iff, ne→==, IsDistinct-snoc, elem-append, Option-cases, ==_refl,
  or_false,
}
use edp_threading.Topology.{Topology, Write, write_all, Touches}
use edp_threading.Task.Control.{TaskOperationalState, state, has_owner, phase, initialize_queued}
use edp_threading.Task.Control.Laws.{Fields, initialize_queued_lem, initial-Fields}
use edp_threading.Task.Payload.{Payload, Adapter, construct_callable}
use edp_threading.Task.Record.{TaskRecord, queue_next, blank}
use edp_threading.Facility.Core.{
  TaskFacilityCore, TaskAdmissionCoreResult, links, write_records, set_record, queue_push,
  has_record_capacity, admit_into, admit_cleared, admit, initial_core,
}
use edp_threading.Facility.Invariant.{Inv, IsRecordOk}
use edp_threading.Facility.Frame.{SameButScratch, write_records-SameButScratch, requeued-Inv}
use edp_threading.Facility.Admission.Placement.{admitted_record, admit_into-Inv}

module _ (t : Topology) where
  -- A record that was free and now holds a queued, owned callable.
  abbrev pub IsQueuedWith : TaskRecord → ℕ → Adapter → Type 0
  IsQueuedWith r f a =
      (state r.control ≡ TaskOperationalState.queued)
      × (has_owner r.control ≡ true)
      × (r.payload ≡ Payload.callable f)
      × (r.operations ≡ some a)

  -- Record `i` was free; the result names it with its Phase toggled; it is queued last with the
  -- callable; every other record keeps all but its queue link, and its availability.
  pub record AdmittedAt (c : TaskFacilityCore t) (q : List ℕ) (f : ℕ) (a : Adapter)
      (r : TaskFacilityCore t × TaskAdmissionCoreResult) (i : ℕ) : Type 0 where
    pub below : i < t.records
    pub was_free : t.availability.is_set c.availability i ≡ true
    pub is_binding :
        r.1
        ≡ TaskAdmissionCoreResult.admitted
            (record { record_index = i; phase = not (phase (c.records i).control) })
    pub toggles_phase : phase (r.0.records i).control ≡ not (phase (c.records i).control)
    pub valid : Inv t r.0 (q ++ i ∷ [])
    pub is_queued : IsQueuedWith (r.0.records i) f a
    pub others :
        (j : ℕ)
        → j < t.records
        → i ≢ j
        → SameButScratch (r.0.records j) (c.records j)
          × (t.availability.is_set r.0.availability j ≡ t.availability.is_set c.availability j)

  pub admit_into-AdmittedAt :
      (c : TaskFacilityCore t) (q : List ℕ) (f : ℕ) (a : Adapter) (i : ℕ)
      → Inv t c q
      → i < t.records
      → t.availability.is_set c.availability i ≡ true
      → AdmittedAt c q f a
          (admit_cleared t
            (record c { availability = (t.availability.clear c.availability i).0 })
            f
            a
            i
            true)
          i
  unfolding admit_cleared admit_into queue_push
  admit_into-AdmittedAt c q f a i v lt free = record {
    below = lt;
    was_free = free;
    is_binding =
        ap (λ p. TaskAdmissionCoreResult.admitted (record { record_index = i; phase = p }))
          (rw kept.1 (rw (==_refl i) fields.2));
    toggles_phase = rw kept.1 (rw (==_refl i) fields.2);
    valid = admit_into-Inv t c q f a i v lt free;
    is_queued =
        rw (kept.0, kept.1, kept.2) (rw (==_refl i, was_raw.2) (fields.0, fields.1, refl, refl));
    others = λ j below ne. (
      rw (ne→== i j ne) at (write_records-SameButScratch t ws placed.records j),
      rw (t.availability.is_set-clear c.availability i j lt below, ne→== i j ne),
    );
  }
    where
      placed : TaskFacilityCore t
      placed =
          set_record t (record c { availability = (t.availability.clear c.availability i).0 }) i
            (admitted_record (c.records i) f a)

      ws : List Write
      ws = (t.queue.push c.ends (links t placed.records) i).1

      kept : SameButScratch (write_records t placed.records ws i) (placed.records i)
      kept = write_records-SameButScratch t ws placed.records i

      ok : IsRecordOk true (elem i q) (c.records i)
      ok = rw free at (v.ok i lt)

      was_raw :
          (elem i q ≡ false)
          × (has_owner (c.records i).control ≡ false)
          × ((c.records i).payload ≡ Payload.raw)
      was_raw = (ok.0.0, ok.0.1, ok.0.2)

      fields :
          Fields
            (initialize_queued (c.records i).control)
            TaskOperationalState.queued
            true
            (not (phase (c.records i).control))
      fields = initialize_queued_lem (c.records i).control ok.1

  abbrev pub Admits :
      TaskFacilityCore t
      → List ℕ
      → ℕ
      → Adapter
      → TaskFacilityCore t × TaskAdmissionCoreResult
      → Type 0
  Admits c q f a r =
      ((has_record_capacity t c ≡ false)
        × (r ≡ (c, TaskAdmissionCoreResult.capacity_unavailable))
        × ((i : ℕ) → i < t.records → t.availability.is_set c.availability i ≡ false))
      ⊎ ((has_record_capacity t c ≡ true) × ((i : ℕ) × AdmittedAt c q f a r i))

  -- Admit, on a well-formed core whose queue contains `q`, does one of two things. With a free
  -- record it takes a free record, answers Admitted with that record's index and its Phase
  -- toggled, leaves it Queued and owned with the callable and its operations, and the core is
  -- well formed with the record last in the queue; every other record keeps its payload,
  -- control byte and operations, and its availability. With no free record it answers
  -- CapacityUnavailable and changes nothing; then every record is allocated.
  pub admit_lem :
      (c : TaskFacilityCore t) (q : List ℕ) (f : ℕ) (a : Adapter)
      → Inv t c q
      → Admits c q f a (admit t c f a)
  unfolding admit has_record_capacity
  admit_lem c q f a v = elim (Option-cases (t.availability.find_first_set c.availability)) [
    | inl none_free ↦ inl (
      rw (t.availability.is_any_set_lem c.availability, none_free),
      rw (none_free, admit) refl,
      t.availability.find_first_set_none c.availability none_free,
    )
    | inr (i, found) ↦
        let here = t.availability.find_first_set_some c.availability i found in
        inr (
          rw (t.availability.is_any_set_lem c.availability, found),
          (
            i,
            rw (found, admit, t.availability.clear_succeeds c.availability i here.0 here.1)
                (admit_into-AdmittedAt c q f a i v here.0 here.1),
          ),
        )
  ]

  -- The core that the constructor makes is well formed, with an empty queue.
  pub initial_core-Inv : Inv t (initial_core t) []
  unfolding initial_core blank
  initial_core-Inv = record {
    holds = t.queue.fresh-Holds _;
    distinct = tt;
    members = λ i h. absurd (cc);
    ok = λ i lt.
        rw
          (
            t.availability.is_set-set_all t.availability.fresh i lt,
            initial-Fields.0,
            initial-Fields.1,
          )
          ((refl, refl, refl, tt), initial-Fields.3);
  }
