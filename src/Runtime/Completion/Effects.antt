-- ===== src/Runtime/Completion/Effects.antt =====
-- What the end of a Worker's Task does to the record and to the leases.
use edp_threading.Base.{
  ℕ, ◌<◌, ◌≡◌, ◌⊎◌, refl, sym, subst, ap, ◌∙◌, Bool, true, false, not, ◌||◌, Option, some, none,
  List, ◌==◌, inl, inr, Bool-cases,
}
use mathlib.Core.Option.{some-injective, none-ne-some}
use edp_threading.Topology.{Topology}
use edp_threading.Task.Control.{has_owner}
use edp_threading.Lifecycle.{Outcome}
use edp_threading.Worker.{Workers, WorkerAvailabilityResult, is_worker_context, mark_available}
use edp_threading.Worker.Lease.{Marks, mark_available_lem}
use edp_threading.Facility.Core.{
  TaskFacilityCore, TaskRecordBinding, TaskReclaimResult, reclaim, is_ownerless_terminal,
}
use edp_threading.Facility.Invariant.{Inv}
use edp_threading.Facility.Reclamation.{ReclaimedAt, Reclaims, reclaim_lem}
use edp_threading.Runtime.{Router, TaskFacilityRuntime, schedule_available_workers}
use edp_threading.Runtime.Completion.{
  Mutex, after_reclaim, reclaim_if_quiescent, matching_waiter_count, hand_over, scheduled_failure,
  is_available,
}
use edp_threading.Runtime.Completion.Reclaiming.{after_reclaim-core}

module _ {W : Type 0} (t : Topology) (waiter_capacity : ℕ) (router : Router W)
    (mutex : Mutex W) where
  after_reclaim-workers :
      (rt : TaskFacilityRuntime t W) (r : TaskFacilityCore t × TaskReclaimResult)
      → (after_reclaim t waiter_capacity router mutex rt r).0.workers ≡ rt.workers
  unfolding after_reclaim
  after_reclaim-workers rt (core, TaskReclaimResult.reclaimed) = refl
  after_reclaim-workers rt (core, TaskReclaimResult.not_eligible) = refl
  after_reclaim-workers rt (core, TaskReclaimResult.provider_failure) = refl

  -- A core as it was, or with the record of an ended Task, which nobody owns, reclaimed.
  abbrev pub IsTidied : ℕ → List ℕ → TaskFacilityCore t → TaskFacilityCore t → Type 0
  IsTidied i q c d = (d ≡ c) ⊎ ((has_owner (c.records i).control ≡ false) × ReclaimedAt t c q i d)

  reclaimed-IsTidied :
      (c : TaskFacilityCore t) (q : List ℕ) (i : ℕ) (p : Bool)
      (r : TaskFacilityCore t × TaskReclaimResult)
      → Reclaims t c q i p r
      → IsTidied i q c r.0
  reclaimed-IsTidied c q i p r (inl (current, taken, ownerless, terminal, at, e)) =
      inr (ownerless, at)
  reclaimed-IsTidied c q i p r (inr (why, same)) = inl (ap (λ x. x.0) same)

  pub reclaim_if_quiescent-IsTidied :
      (rt : TaskFacilityRuntime t W) (q : List ℕ) (b : TaskRecordBinding)
      → Inv t rt.core q
      → b.record_index < t.records
      → IsTidied b.record_index q rt.core
          (reclaim_if_quiescent t waiter_capacity router mutex rt b).0.core
        × ((reclaim_if_quiescent t waiter_capacity router mutex rt b).0.workers ≡ rt.workers)
  unfolding reclaim_if_quiescent
  reclaim_if_quiescent-IsTidied rt q b v below =
      let r = reclaim t rt.core b.record_index b.phase in
      elim (Bool-cases (
        not (is_ownerless_terminal t rt.core b.record_index b.phase)
        || not (matching_waiter_count t waiter_capacity router mutex rt.waiters b == 0))) [
          | inl kept ↦ rw (kept, reclaim_if_quiescent) (inl refl, refl)
          | inr quiet ↦
              rw (quiet, reclaim_if_quiescent)
                (
                  subst (λ c. IsTidied b.record_index q rt.core c)
                      (sym (after_reclaim-core t waiter_capacity router mutex rt r))
                      (reclaimed-IsTidied rt.core q b.record_index b.phase r
                        (reclaim_lem t rt.core q b.record_index v below b.phase)),
                  after_reclaim-workers rt r,
                )
        ]

  -- The pass that a hand-over runs, after the Worker of the context was marked available.
  abbrev pub RunsPass : ℕ → TaskFacilityRuntime t W → TaskFacilityRuntime t W → Type 0
  RunsPass context mid final =
      (workers : Workers t) × (marked : WorkerAvailabilityResult) × Marks t mid.workers context
        (workers, marked)
      × (((is_worker_context t context ≡ false)
            × (final.core ≡ mid.core)
            × (final.workers ≡ mid.workers))
          ⊎ ((is_worker_context t context ≡ true)
              × ((pass : TaskFacilityRuntime t W × Outcome) × (schedule_available_workers t
                      waiter_capacity router (record mid { workers = workers })
                    ≡ some pass)
                  × (final.core ≡ pass.0.core)
                  × (final.workers ≡ pass.0.workers))))

  scheduled-pass :
      (failed : Bool) (r : Option (TaskFacilityRuntime t W × Outcome))
      (out : TaskFacilityRuntime t W × Bool)
      → scheduled_failure t waiter_capacity router mutex failed r ≡ some out
      → (pass : TaskFacilityRuntime t W × Outcome) × (r ≡ some pass) × (out.0 ≡ pass.0)
  scheduled-pass failed none out h = absurd (none-ne-some out h)
  scheduled-pass failed (some pass) out h = (pass, refl, ap (λ x. x.0) (sym (some-injective _ _ h)))

  pub hand_over-RunsPass :
      (rt : TaskFacilityRuntime t W) (context : ℕ) (failed : Bool)
      (out : TaskFacilityRuntime t W × Bool)
      → hand_over t waiter_capacity router mutex rt context failed ≡ some out
      → RunsPass context rt out.0
  unfolding hand_over
  hand_over-RunsPass rt context failed out h =
      let marks = mark_available_lem t rt.workers context in
      let (workers, marked) = mark_available t rt.workers context in
      (
        workers,
        marked,
        marks,
        elim marks [
          | inl (here, fine, frees) ↦
              let (pass, e, same) =
                scheduled-pass failed
                  (schedule_available_workers t waiter_capacity router
                    (record rt { workers = workers }))
                  out (sym (rw (hand_over, fine) refl) ∙ h) in
              inr (here, (pass, e, ap (λ x. x.core) same, ap (λ x. x.workers) same))
          | inr (outside, e) ↦
              let off : is_available marked ≡ false = rw (ap (λ x. x.1) e) refl in
              let same : (record rt { workers = workers }, true) ≡ out =
                some-injective _ _ (sym (rw (hand_over, off) refl) ∙ h) in
              inl (
                outside,
                ap (λ x. x.0.core) (sym same),
                ap (λ x. x.0.workers) (sym same) ∙ ap (λ x. x.0) e,
              )
        ],
      )
