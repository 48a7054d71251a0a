-- ===== src/Facility/Reuse.antt =====
-- A record that is admitted again: the handles of its former incarnation.
use edp_threading.Base.{ℕ, ◌≡◌, ◌∙◌, refl, sym, ap, Bool, false, not, none, List, arith, inl, inr}
use edp_threading.Topology.{Topology}
use edp_threading.Types.{TaskCancelResult, TaskTakeStatus, TaskState}
use edp_threading.Task.Control.{TaskInvocationOutcome, phase}
use edp_threading.Task.Payload.{Adapter}
use edp_threading.Facility.Core.{
  TaskFacilityCore, TaskRecordBinding, TaskAdmissionCoreResult, TaskReleaseEffect,
  TaskReclaimResult, is_current_incarnation, admit, cancel, cancellation, release_task_owner,
  take_result, publish_invocation_outcome, reclaim, is_ownerless_terminal, public_state,
}
use edp_threading.Facility.Invariant.{Inv}
use edp_threading.Facility.Admission.{admit_lem, Admits}

module _ (t : Topology) where
  -- Every operation on the record through this Phase changes nothing, and says so.
  abbrev pub Refuses : TaskFacilityCore t → ℕ → Bool → Type 0
  Refuses c i p =
      (cancel t c i p ≡ (c, cancellation TaskCancelResult.already_finished false))
      × (release_task_owner t c i p ≡ (c, TaskReleaseEffect.ownership_released))
      × (take_result t c i p ≡ (c, TaskTakeStatus.not_completed, none))
      × ((o : TaskInvocationOutcome) → publish_invocation_outcome t c i p o ≡ c)
      × (reclaim t c i p ≡ (c, TaskReclaimResult.not_eligible))
      × (public_state t c i p ≡ TaskState.cancelled)

  Refuses-stale :
      (c : TaskFacilityCore t) (i : ℕ) (p : Bool)
      → is_current_incarnation t c i p ≡ false
      → Refuses c i p
  unfolding cancel release_task_owner take_result publish_invocation_outcome reclaim
      is_ownerless_terminal public_state
  Refuses-stale c i p stale = (
    rw stale refl,
    rw stale refl,
    rw stale refl,
    λ o. rw stale refl,
    rw stale refl,
    rw stale refl,
  )

  other_phase :
      (c : TaskFacilityCore t) (i : ℕ) (p : Bool)
      → phase (c.records i).control ≡ not p
      → is_current_incarnation t c i p ≡ false
  unfolding is_current_incarnation
  other_phase c i p e = ground arith

  binding_index :
      (b d : TaskRecordBinding)
      → TaskAdmissionCoreResult.admitted b ≡ TaskAdmissionCoreResult.admitted d
      → b ≡ d
  binding_index b d e = cc

  not_admitted :
      (b : TaskRecordBinding)
      → TaskAdmissionCoreResult.capacity_unavailable ≡ TaskAdmissionCoreResult.admitted b
      → ⊥
  not_admitted b e = absurd (cc)

  -- When Admit on a well-formed core reuses a record, the record's former Phase names nothing:
  -- through it Cancel answers AlreadyFinished, ReleaseOwner OwnershipReleased, TakeResult
  -- NotCompleted, Reclaim NotEligible and PublicState Cancelled, and these and
  -- PublishInvocationOutcome change nothing.
  pub admit-Refuses :
      (c : TaskFacilityCore t) (q : List ℕ) (f : ℕ) (a : Adapter) (b : TaskRecordBinding)
      → Inv t c q
      → (admit t c f a).1 ≡ TaskAdmissionCoreResult.admitted b
      → Refuses (admit t c f a).0 b.record_index (phase (c.records b.record_index).control)
  admit-Refuses c q f a b v named = by_result (admit_lem t c q f a v)
    where
      by_result :
          Admits t c q f a (admit t c f a)
          → Refuses (admit t c f a).0 b.record_index (phase (c.records b.record_index).control)
      by_result (inl full) = absurd (not_admitted b (sym (ap (λ x. x.1) full.1) ∙ named))
      by_result (inr (room, at)) =
          let same = ap (λ x. x.record_index) (binding_index _ b (sym at.1.is_binding ∙ named)) in
          rw (← same) (
            Refuses-stale (admit t c f a).0 at.0 (phase (c.records at.0).control) (
              other_phase (admit t c f a).0 at.0 (phase (c.records at.0).control)
                at.1.toggles_phase))
