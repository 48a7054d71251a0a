-- ===== src/Runtime/Completion/Reclaiming.antt =====
-- The reclamation of a record that no waiter retains keeps the core well formed.
use edp_threading.Base.{
  ℕ, ◌<◌, ◌≡◌, refl, sym, subst, Bool, not, ◌||◌, List, ◌==◌, inl, inr, Bool-cases,
}
use edp_threading.Topology.{Topology}
use edp_threading.Facility.Core.{
  TaskFacilityCore, TaskRecordBinding, TaskReclaimResult, reclaim, is_ownerless_terminal,
}
use edp_threading.Facility.Invariant.{Inv}
use edp_threading.Facility.Reclamation.{Reclaims, reclaim_lem}
use edp_threading.Runtime.{Router, TaskFacilityRuntime}
use edp_threading.Runtime.Completion.{
  Mutex, after_reclaim, reclaim_if_quiescent, matching_waiter_count,
}

module _ {W : Type 0} (t : Topology) (waiter_capacity : ℕ) (router : Router W)
    (mutex : Mutex W) where
  pub after_reclaim-core :
      (rt : TaskFacilityRuntime t W) (r : TaskFacilityCore t × TaskReclaimResult)
      → (after_reclaim t waiter_capacity router mutex rt r).0.core ≡ r.0
  unfolding after_reclaim
  after_reclaim-core rt (core, TaskReclaimResult.reclaimed) = refl
  after_reclaim-core rt (core, TaskReclaimResult.not_eligible) = refl
  after_reclaim-core rt (core, TaskReclaimResult.provider_failure) = refl

  reclaimed-Inv :
      (c : TaskFacilityCore t) (q : List ℕ) (i : ℕ) (p : Bool)
      (r : TaskFacilityCore t × TaskReclaimResult)
      → Inv t c q
      → Reclaims t c q i p r
      → Inv t r.0 q
  reclaimed-Inv c q i p r v (inl at) = at.4.valid
  reclaimed-Inv c q i p r v (inr (why, same)) = rw same v

  pub reclaim_if_quiescent-Inv :
      (rt : TaskFacilityRuntime t W) (q : List ℕ) (b : TaskRecordBinding)
      → Inv t rt.core q
      → b.record_index < t.records
      → Inv t (reclaim_if_quiescent t waiter_capacity router mutex rt b).0.core q
  unfolding reclaim_if_quiescent
  reclaim_if_quiescent-Inv rt q b v below =
      elim (Bool-cases (
        not (is_ownerless_terminal t rt.core b.record_index b.phase)
        || not (matching_waiter_count t waiter_capacity router mutex rt.waiters b == 0))) [
          | inl kept ↦ rw (kept, reclaim_if_quiescent) v
          | inr quiet ↦
              rw (quiet, reclaim_if_quiescent)
                (subst (λ c. Inv t c q)
                  (sym (after_reclaim-core rt (reclaim t rt.core b.record_index b.phase)))
                  (reclaimed-Inv rt.core q b.record_index b.phase
                    (reclaim t rt.core b.record_index b.phase) v
                    (reclaim_lem t rt.core q b.record_index v below b.phase)))
        ]
