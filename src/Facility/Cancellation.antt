-- ===== src/Facility/Cancellation.antt =====
-- What TaskFacilityCore::Cancel guarantees.
use edp_threading.Base.{
  ℕ, ◌<◌, ◌≡◌, ◌⊎◌, refl, Bool, true, false, List, if◌then◌else◌, elem, Bool-cases, inl, inr,
}
use edp_threading.Topology.{Topology}
use edp_threading.Types.{TaskCancelResult}
use edp_threading.Task.Control.{
  TaskOperationalState, state, has_owner, set_state, compare_exchange_state, same_state,
}
use edp_threading.Task.Control.Laws.{set_state_lem}
use edp_threading.Facility.Core.{
  TaskFacilityCore, TaskCancellationCoreResult, cancellation, cancel_in, cancel,
  is_current_incarnation,
}
use edp_threading.Facility.Invariant.{Inv, IsRecordOk, AllocatedOk-requested}
use edp_threading.Facility.Update.{UpdatedAt, set_record-UpdatedAt}
use edp_threading.Facility.Withdrawal.{WithdrawnAt, withdraw_queued-WithdrawnAt}

module _ (t : Topology) where
  -- Record `i` asks its running callable to stop, and keeps all else.
  abbrev pub RequestedAt : TaskFacilityCore t → List ℕ → ℕ → TaskFacilityCore t → Type 0
  RequestedAt c q i d =
      UpdatedAt t c q i TaskOperationalState.running_cancel_requested
        (has_owner (c.records i).control) (c.records i).payload d

  -- What cancelling an allocated record does, by its operational state.
  abbrev pub CancelsIn :
      TaskFacilityCore t
      → List ℕ
      → ℕ
      → TaskOperationalState
      → TaskFacilityCore t × TaskCancellationCoreResult
      → Type 0
  CancelsIn c q i TaskOperationalState.queued r =
      WithdrawnAt t c q i r.0 × (r.1 ≡ cancellation TaskCancelResult.accepted true)
  CancelsIn c q i TaskOperationalState.running r =
      RequestedAt c q i r.0 × (r.1 ≡ cancellation TaskCancelResult.accepted false)
  CancelsIn c q i TaskOperationalState.running_cancel_requested r =
      r ≡ (c, cancellation TaskCancelResult.accepted false)
  CancelsIn c q i _ r = r ≡ (c, cancellation TaskCancelResult.already_finished false)

  abbrev pub Cancels :
      TaskFacilityCore t
      → List ℕ
      → ℕ
      → Bool
      → TaskFacilityCore t × TaskCancellationCoreResult
      → Type 0
  Cancels c q i p r =
      ((is_current_incarnation t c i p ≡ false)
        × (r ≡ (c, cancellation TaskCancelResult.already_finished false)))
      ⊎ ((is_current_incarnation t c i p ≡ true) × CancelsIn c q i (state (c.records i).control) r)

  module _ (c : TaskFacilityCore t) (q : List ℕ) (i : ℕ) (v : Inv t c q) (below : i < t.records)
      (taken : t.availability.is_set c.availability i ≡ false) where
    request-RequestedAt :
        state (c.records i).control ≡ TaskOperationalState.running
        → RequestedAt c q i (cancel_in t c i TaskOperationalState.running).0
    unfolding compare_exchange_state
    request-RequestedAt is_running =
        let old : IsRecordOk false (elem i q) (c.records i) = rw taken at (v.ok i below) in
        rw (is_running, same_state)
          (set_record-UpdatedAt t c q i TaskOperationalState.running_cancel_requested
            (has_owner (c.records i).control) (c.records i).payload
            (set_state (c.records i).control TaskOperationalState.running_cancel_requested) v taken
            (set_state_lem (c.records i).control TaskOperationalState.running_cancel_requested
              old.1)
            (AllocatedOk-requested (elem i q) (has_owner (c.records i).control)
              (has_owner (c.records i).control) (c.records i).payload (c.records i).operations
              (rw is_running at old.0)))

    cancel_in-CancelsIn :
        (s : TaskOperationalState)
        → state (c.records i).control ≡ s
        → CancelsIn c q i s (cancel_in t c i s)
    cancel_in-CancelsIn TaskOperationalState.queued e =
        (withdraw_queued-WithdrawnAt t c q i v below taken e, refl)
    cancel_in-CancelsIn TaskOperationalState.running e = (request-RequestedAt e, refl)
    cancel_in-CancelsIn TaskOperationalState.running_cancel_requested e = refl
    cancel_in-CancelsIn TaskOperationalState.completed e = refl
    cancel_in-CancelsIn TaskOperationalState.cancelled e = refl
    cancel_in-CancelsIn TaskOperationalState.unnamed e = refl

    -- Cancel of an allocated record of a well-formed core, by the record's state: a stale
    -- Phase answers AlreadyFinished and changes nothing; a Queued record leaves the queue as
    -- Cancelled with its callable destroyed, and terminal publication is reported; a Running
    -- record has its cancellation requested and keeps all else; a record already asked
    -- changes nothing and answers Accepted; a terminal record changes nothing and answers
    -- AlreadyFinished. The core stays well formed.
    pub cancel_lem : (p : Bool) → Cancels c q i p (cancel t c i p)
    unfolding cancel
    cancel_lem p = elim (Bool-cases (is_current_incarnation t c i p)) [
      | inl current ↦ inr (
        current,
        rw (current, cancel, if◌then◌else◌)
            (cancel_in-CancelsIn (state (c.records i).control) refl),
      )
      | inr stale ↦ inl (stale, rw (stale, cancel) refl)
    ]
