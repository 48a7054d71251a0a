-- ===== src/Worker.antt =====
-- src/threading/detail/WorkerLeaseScheduler.hpp: which Workers of a facility are free for a grant.
-- The state is the set of available Workers; contexts are topology-wide, Workers are counted from
-- the facility's first context.
pub mod Lease
use edp_threading.Base.{
  ℕ, ◌+◌, ◌-◌, ◌%◌, Bool, true, false, ◌&&◌, Option, none, some, ltb, leb, if◌then◌else◌,
}
use edp_threading.Topology.{Topology}

pub data WorkerAvailabilityResult : Type 0 where
  available outside_facility_range provider_failure : WorkerAvailabilityResult

module _ (t : Topology) where
  abbrev pub Workers : Type 0
  Workers = t.leases.Members

  -- IsWorkerContext.
  abbrev pub is_worker_context : ℕ → Bool
  is_worker_context context =
      leb t.first_context context && ltb context (t.first_context + t.workers)

  -- WorkerOrdinal; every caller has tested IsWorkerContext, so the subtraction does not wrap.
  abbrev pub worker_ordinal : ℕ → ℕ
  worker_ordinal context = context - t.first_context

  -- ContextIndexForWorker, with its cast to the context index type.
  unfoldable pub context_index_for_worker : ℕ → ℕ
  context_index_for_worker ordinal = (t.first_context + ordinal) % t.index.modulus t.contexts

  -- MarkAvailable.
  unfoldable pub mark_available : Workers → ℕ → Workers × WorkerAvailabilityResult
  mark_available w context =
      if is_worker_context context
      then ((t.leases.set w (worker_ordinal context)).0, WorkerAvailabilityResult.available)
      else (w, WorkerAvailabilityResult.outside_facility_range)

  -- TryClaimSpecific.
  unfoldable pub try_claim_specific : Workers → ℕ → Workers × Option ℕ
  try_claim_specific w context =
      if is_worker_context context
      then (if t.leases.is_set w (worker_ordinal context)
          then ((t.leases.clear w (worker_ordinal context)).0, some context)
          else (w, none))
      else (w, none)

  -- TryClaimAvailable.
  unfoldable pub try_claim_available : Workers → Workers × Option ℕ
  unfolding context_index_for_worker
  try_claim_available w = elim (t.leases.find_first_set w) [
    | none ↦ (w, none)
    | some i ↦ ((t.leases.clear w i).0, some (context_index_for_worker i))
  ]

  -- IsAnyAvailable.
  abbrev pub is_any_available : Workers → Bool
  is_any_available w = t.leases.is_any_set w

  -- AvailableCount and InUseCount.
  abbrev pub available_count : Workers → ℕ
  available_count w = t.leases.count w

  unfoldable pub in_use_count : Workers → ℕ
  in_use_count w = t.workers - available_count w

  -- Whether a context is that of a Worker which is free for a grant.
  abbrev pub is_free : Workers → ℕ → Bool
  is_free w context =
      if is_worker_context context then t.leases.is_set w (worker_ordinal context) else false
