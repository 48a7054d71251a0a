-- ===== src/Runtime/Handles/Laws.antt =====
-- src/threading/detail/TaskFacilityRuntime.hpp: what Cancel, ReleaseOwner and TakeResult do to the
-- core, with the reclamation that follows them.
use edp_threading.Base.{
  ℕ, ◌<◌, ◌≡◌, ◌⊎◌, ◌∙◌, refl, sym, ap, subst, true, false, not, ◌||◌, ◌==◌, List, without,
  Bool-cases, inl, inr,
}
use edp_threading.Topology.{Topology}
use edp_threading.Task.Control.{TaskOperationalState, state, has_owner}
use edp_threading.Facility.Core.{
  TaskFacilityCore, TaskRecordBinding, TaskReleaseEffect, is_current_incarnation,
  is_ownerless_terminal, reclaim, release_task_owner,
}
use edp_threading.Facility.Invariant.{Inv}
use edp_threading.Facility.Release.{ReleasesIn, release_task_owner_lem}
use edp_threading.Facility.Reclamation.{ReclaimedAt, reclaim_lem}
use edp_threading.Runtime.{Router, TaskFacilityRuntime}
use edp_threading.Runtime.Completion.{Mutex, reclaim_if_quiescent, matching_waiter_count}
use edp_threading.Runtime.Completion.Reclaiming.{after_reclaim-core}
use edp_threading.Runtime.Handles.{
  TaskFacilityOwnerReleaseResult, wake_if, is_terminal_published, release_locked, release_owner_of,
  withdraw_unreturned_dispatch,
}
use edp_threading.Runtime.Handles.Frame.{wake_if-core}

module _ (t : Topology) where
  -- The core is well formed, for some queue.
  abbrev pub IsValid : TaskFacilityCore t → Type 0
  IsValid c = (q : List ℕ) × Inv t c q

  -- The core is well formed, and nobody owns the Task of a record.
  abbrev pub Disowned : ℕ → TaskFacilityCore t → Type 0
  Disowned i c = IsValid c × (has_owner (c.records i).control ≡ false)

  pub released-Disowned :
      (c : TaskFacilityCore t) (q : List ℕ) (i : ℕ) (s : TaskOperationalState)
      (r : TaskFacilityCore t × TaskReleaseEffect)
      → ReleasesIn t c q i s r
      → Disowned i r.0
  released-Disowned c q i TaskOperationalState.queued r at =
      ((without i q, at.0.2.valid), at.0.2.has_ownership)
  released-Disowned c q i TaskOperationalState.running r at = ((q, at.0.valid), at.0.has_ownership)
  released-Disowned c q i TaskOperationalState.running_cancel_requested r at =
      ((q, at.0.valid), at.0.has_ownership)
  released-Disowned c q i TaskOperationalState.completed r at =
      ((q, at.0.valid), at.0.has_ownership)
  released-Disowned c q i TaskOperationalState.cancelled r at =
      ((q, at.0.valid), at.0.has_ownership)
  released-Disowned c q i TaskOperationalState.unnamed r at = absurd at

  -- A reclamation leaves the core, or frees the record.
  abbrev pub MayReclaim : TaskFacilityCore t → List ℕ → ℕ → TaskFacilityCore t → Type 0
  MayReclaim c q i d = (d ≡ c) ⊎ ReclaimedAt t c q i d

  pub MayReclaim-Disowned :
      (c d : TaskFacilityCore t) (q : List ℕ) (i : ℕ)
      → Inv t c q
      → has_owner (c.records i).control ≡ false
      → MayReclaim c q i d
      → Disowned i d
  MayReclaim-Disowned c d q i v free (inl same) = rw same ((q, v), free)
  MayReclaim-Disowned c d q i v free (inr at) =
      ((q, at.valid), ap has_owner at.keeps_control ∙ free)

module _ {W : Type 0} (t : Topology) (waiter_capacity : ℕ) (router : Router W)
    (mutex : Mutex W) where
  pub reclaim_if_quiescent-MayReclaim :
      (rt : TaskFacilityRuntime t W) (q : List ℕ) (b : TaskRecordBinding)
      → Inv t rt.core q
      → b.record_index < t.records
      → MayReclaim t rt.core q b.record_index
          (reclaim_if_quiescent t waiter_capacity router mutex rt b).0.core
  unfolding reclaim_if_quiescent
  reclaim_if_quiescent-MayReclaim rt q b v below =
      let freed = reclaim t rt.core b.record_index b.phase in
      elim (Bool-cases (
        not (is_ownerless_terminal t rt.core b.record_index b.phase)
        || not (matching_waiter_count t waiter_capacity router mutex rt.waiters b == 0))) [
          | inl kept ↦ inl (rw (kept, reclaim_if_quiescent) refl)
          | inr quiet ↦ elim (reclaim_lem t rt.core q b.record_index v below b.phase) [
            | inl at ↦ inr (
                rw (quiet, reclaim_if_quiescent)
                  (subst (λ c. ReclaimedAt t rt.core q b.record_index c)
                    (sym (after_reclaim-core t waiter_capacity router mutex rt freed)) at.4))
            | inr (why, same) ↦ inl (
                rw (quiet, reclaim_if_quiescent)
                  (after_reclaim-core t waiter_capacity router mutex rt freed ∙ ap (λ x. x.0) same))
          ]
        ]

  -- A Task that no handle was returned for is disowned.
  pub withdraw_unreturned_dispatch-Disowned :
      (rt : TaskFacilityRuntime t W) (q : List ℕ) (b : TaskRecordBinding)
      → Inv t rt.core q
      → b.record_index < t.records
      → has_owner (rt.core.records b.record_index).control ≡ true
      → is_current_incarnation t rt.core b.record_index b.phase ≡ true
      → Disowned t b.record_index
          (withdraw_unreturned_dispatch t waiter_capacity router mutex rt b).0.core
  unfolding withdraw_unreturned_dispatch
  withdraw_unreturned_dispatch-Disowned rt q b v below owned current =
      let c = (release_task_owner t rt.core b.record_index b.phase).0 in
      let out =
        released-Disowned t rt.core q b.record_index
          (state (rt.core.records b.record_index).control)
          (release_task_owner t rt.core b.record_index b.phase)
          (release_task_owner_lem t rt.core q b.record_index v below owned b.phase current) in
      MayReclaim-Disowned t c
        (withdraw_unreturned_dispatch t waiter_capacity router mutex rt b).0.core out.0.0
        b.record_index out.0.1 out.1
        (reclaim_if_quiescent-MayReclaim (record rt { core = c }) out.0.0 b out.0.1 below)

  -- What ReleaseOwner does to a Task.
  abbrev pub ReleasesOwner :
      TaskFacilityRuntime t W
      → TaskRecordBinding
      → TaskFacilityRuntime t W × TaskFacilityOwnerReleaseResult
      → Type 0
  ReleasesOwner rt b out =
      (((mutex.acquire rt.world).1 ≡ false)
        × (out ≡ (
          record rt { world = (mutex.acquire rt.world).0 },
          TaskFacilityOwnerReleaseResult.provider_failure,
        )))
      ⊎ (((mutex.acquire rt.world).1 ≡ true) × Disowned t b.record_index out.0.core)

  -- ReleaseOwner of a current and owned Task of a well-formed core answers ProviderFailure
  -- without the lock and then changes nothing; with it, whether a wake, a reclamation or the
  -- release of the lock fails or not, the Task has no owner any more and the core is well
  -- formed.
  pub release_owner_of_lem :
      (rt : TaskFacilityRuntime t W) (q : List ℕ) (b : TaskRecordBinding)
      → Inv t rt.core q
      → b.record_index < t.records
      → has_owner (rt.core.records b.record_index).control ≡ true
      → is_current_incarnation t rt.core b.record_index b.phase ≡ true
      → ReleasesOwner rt b (release_owner_of t waiter_capacity router mutex rt b)
  unfolding release_owner_of release_locked
  release_owner_of_lem rt q b v below owned current = elim (Bool-cases (mutex.acquire rt.world).1) [
    | inr lost ↦ inl (lost, rw (lost, release_owner_of) refl)
    | inl got ↦
        let r = release_task_owner t rt.core b.record_index b.phase in
        let out =
          released-Disowned t rt.core q b.record_index
            (state (rt.core.records b.record_index).control) r
            (release_task_owner_lem t rt.core q b.record_index v below owned b.phase current) in
        let start : TaskFacilityRuntime t W = record rt {
          core = r.0;
          world = (mutex.acquire rt.world).0;
        } in
        let notified =
          (wake_if t waiter_capacity router mutex (is_terminal_published r.1) start b).0 in
        let same : notified.core ≡ r.0 =
          wake_if-core t waiter_capacity router mutex (is_terminal_published r.1) start b in
        let valid : Inv t notified.core out.0.0 = rw same out.0.1 in
        let free : has_owner (notified.core.records b.record_index).control ≡ false =
          rw same out.1 in
        inr (
          got,
          rw (got, release_owner_of)
              (MayReclaim-Disowned t notified.core
                (reclaim_if_quiescent t waiter_capacity router mutex notified b).0.core out.0.0
                b.record_index valid free
                (reclaim_if_quiescent-MayReclaim notified out.0.0 b valid below)),
        )
  ]
