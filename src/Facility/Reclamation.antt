-- ===== src/Facility/Reclamation.antt =====
-- What TaskFacilityCore::Reclaim guarantees.
use edp_threading.Base.{
  ℕ, ◌<◌, ◌≡◌, ◌≢◌, ◌∙◌, ◌⊎◌, refl, Bool, true, false, ◌||◌, Option, none, some, List, ◌==◌, update,
  elem, arith, Bool-cases, inl, inr, ==_iff, ne→==, ==_refl,
}
use edp_threading.Topology.{Topology}
use edp_threading.Task.Control.{TaskOperationalState, state, has_owner, same_state}
use edp_threading.Task.Payload.{Payload, Adapter}
use edp_threading.Task.Record.{TaskRecord, set_queue_next}
use edp_threading.Facility.Core.{
  TaskFacilityCore, TaskReclaimResult, links, is_ownerless_terminal, reclaim,
  is_current_incarnation,
}
use edp_threading.Facility.Invariant.{Inv, IsRecordOk, RecordOk, AllocatedOk}
use edp_threading.Facility.Frame.{SameButScratch}

abbrev pub is_terminal_state : TaskOperationalState → Bool
is_terminal_state s =
    same_state s TaskOperationalState.completed || same_state s TaskOperationalState.cancelled

-- A terminal record with no owner holds nothing.
ownerless_ok :
    (queued : Bool) (s : TaskOperationalState) (p : Payload) (ops : Option Adapter)
    → is_terminal_state s ≡ true
    → AllocatedOk queued s false p ops
    → RecordOk true queued s false p none
ownerless_ok queued s p none e h = absurd h
ownerless_ok queued TaskOperationalState.completed p (some a) e h = (h.0, refl, h.1, tt)
ownerless_ok queued TaskOperationalState.cancelled p (some a) e h = (h.0, refl, h.1, tt)
ownerless_ok queued TaskOperationalState.queued p (some a) e h = absurd (cc)
ownerless_ok queued TaskOperationalState.running p (some a) e h = absurd (cc)
ownerless_ok queued TaskOperationalState.running_cancel_requested p (some a) e h = absurd (cc)
ownerless_ok queued TaskOperationalState.unnamed p (some a) e h = absurd (cc)

module _ (t : Topology) where
  -- Record `i` is available again; its control byte and its storage stand, so its Phase does; it
  -- is detached from its operations. Every other record and bit stands.
  pub record ReclaimedAt (c : TaskFacilityCore t) (q : List ℕ) (i : ℕ) (d : TaskFacilityCore t)
      : Type 0 where
    pub valid : Inv t d q
    pub is_available : t.availability.is_set d.availability i ≡ true
    pub keeps_control : (d.records i).control ≡ (c.records i).control
    pub is_empty : (d.records i).payload ≡ Payload.raw
    pub is_detached : (d.records i).operations ≡ none
    pub others :
        (j : ℕ)
        → j < t.records
        → i ≢ j
        → (d.records j ≡ c.records j)
          × (t.availability.is_set d.availability j ≡ t.availability.is_set c.availability j)

  -- Reclaim frees a record exactly when it is current, allocated, terminal and not owned, and
  -- otherwise changes nothing.
  abbrev pub Reclaims :
      TaskFacilityCore t → List ℕ → ℕ → Bool → TaskFacilityCore t × TaskReclaimResult → Type 0
  Reclaims c q i p r =
      ((is_current_incarnation t c i p ≡ true)
        × (t.availability.is_set c.availability i ≡ false)
        × (has_owner (c.records i).control ≡ false)
        × (is_terminal_state (state (c.records i).control) ≡ true)
        × ReclaimedAt c q i r.0
        × (r.1 ≡ TaskReclaimResult.reclaimed))
      ⊎ (((is_current_incarnation t c i p ≡ false)
            ⊎ (t.availability.is_set c.availability i ≡ true)
            ⊎ (has_owner (c.records i).control ≡ true)
            ⊎ (is_terminal_state (state (c.records i).control) ≡ false))
          × (r ≡ (c, TaskReclaimResult.not_eligible)))

  module _ (c : TaskFacilityCore t) (q : List ℕ) (i : ℕ) (v : Inv t c q)
      (below : i < t.records) where
    abbrev freed : TaskRecord
    freed = set_queue_next t (record (c.records i) { operations = none }) none

    abbrev after : TaskFacilityCore t
    after = record c {
      records = update c.records i freed;
      availability = (t.availability.set c.availability i).0;
    }

    freed-SameButScratch : SameButScratch freed (record (c.records i) { operations = none })
    unfolding set_queue_next
    freed-SameButScratch = (refl, refl, refl)

    module _ (taken : t.availability.is_set c.availability i ≡ false)
        (ownerless : has_owner (c.records i).control ≡ false)
        (terminal : is_terminal_state (state (c.records i).control) ≡ true) where
      was_ok :
          RecordOk true (elem i q) (state (c.records i).control) false (c.records i).payload none
      was_ok =
          ownerless_ok (elem i q) (state (c.records i).control) (c.records i).payload
            (c.records i).operations terminal (rw (taken, ownerless) at (v.ok i below).0)

      freed_ok : IsRecordOk true (elem i q) freed
      freed_ok =
          rw (freed-SameButScratch.0, freed-SameButScratch.1, ownerless) (was_ok, (v.ok i below).1)

      after-Inv : Inv t after q
      after-Inv = record {
        holds =
            t.queue.Holds-frame c.ends (links t c.records) (links t after.records) q v.holds
              λ j here. elim (Bool-cases (i == j)) [
                | inl same ↦ absurd (ground (arith, (==_iff i j).0 same, was_ok.0))
                | inr other ↦ rw other
              ];
        distinct = v.distinct;
        members = v.members;
        ok = λ j lt. elim (Bool-cases (i == j)) [
          | inl same ↦
              let e : i ≡ j = (==_iff i j).0 same in
              rw (← e, t.availability.is_set-set c.availability i i below below, ==_refl i) freed_ok
          | inr other ↦
              rw (t.availability.is_set-set c.availability i j below lt, other) (v.ok j lt)
        ];
      }

      after-ReclaimedAt : ReclaimedAt c q i after
      after-ReclaimedAt = record {
        valid = after-Inv;
        is_available = rw (t.availability.is_set-set c.availability i i below below, ==_refl i);
        keeps_control = rw (==_refl i) freed-SameButScratch.1;
        is_empty = rw (==_refl i) (freed-SameButScratch.0 ∙ was_ok.2);
        is_detached = rw (==_refl i) freed-SameButScratch.2;
        others = λ j lt ne. (
          rw (ne→== i j ne),
          rw (t.availability.is_set-set c.availability i j below lt, ne→== i j ne),
        );
      }

    not_reclaimed :
        (p : Bool)
        → (is_current_incarnation t c i p ≡ false)
          ⊎ (t.availability.is_set c.availability i ≡ true)
          ⊎ (has_owner (c.records i).control ≡ true)
          ⊎ (is_terminal_state (state (c.records i).control) ≡ false)
        → reclaim t c i p ≡ (c, TaskReclaimResult.not_eligible)
    unfolding reclaim is_ownerless_terminal
    not_reclaimed p why = ground arith

    reclaimed :
        (p : Bool)
        → is_current_incarnation t c i p ≡ true
        → t.availability.is_set c.availability i ≡ false
        → has_owner (c.records i).control ≡ false
        → is_terminal_state (state (c.records i).control) ≡ true
        → reclaim t c i p ≡ (after, TaskReclaimResult.reclaimed)
    unfolding reclaim is_ownerless_terminal
    reclaimed p current taken ownerless terminal = rw (current, taken, ownerless, terminal) refl

    -- Reclaim of a record of a well-formed core answers Reclaimed exactly when the Phase is
    -- current, the record is allocated, it has no owner and its state is Completed or
    -- Cancelled; then the record is available, holds no payload and no operations and keeps
    -- its control byte, so its Phase, every other record and bit stands, and the core is
    -- well formed with the same queue. In every other case it answers NotEligible and
    -- changes nothing.
    pub reclaim_lem : (p : Bool) → Reclaims c q i p (reclaim t c i p)
    reclaim_lem p = elim (Bool-cases (is_current_incarnation t c i p)) [
      | inr stale ↦ inr (inl stale, not_reclaimed p (inl stale))
      | inl current ↦ elim (Bool-cases (t.availability.is_set c.availability i)) [
        | inl free ↦ inr (inr (inl free), not_reclaimed p (inr (inl free)))
        | inr taken ↦ elim (Bool-cases (has_owner (c.records i).control)) [
          | inl owned ↦ inr (inr (inr (inl owned)), not_reclaimed p (inr (inr (inl owned))))
          | inr ownerless ↦ elim (Bool-cases (is_terminal_state (state (c.records i).control))) [
            | inr alive ↦ inr (inr (inr (inr alive)), not_reclaimed p (inr (inr (inr alive))))
            | inl terminal ↦
                let e = reclaimed p current taken ownerless terminal in
                inl (
                  current,
                  taken,
                  ownerless,
                  terminal,
                  rw e (after-ReclaimedAt taken ownerless terminal),
                  rw e,
                )
          ]
        ]
      ]
    ]
