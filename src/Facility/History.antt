-- ===== src/Facility/History.antt =====
-- The core under any interleaving of its callers' calls. A step carries what the runtime guarantees
-- when it makes the call: handles stand for an owned record in its current Phase, an invocation is
-- made of a granted record whose callable has not run, and a publication follows its invocation.
use edp_threading.Base.{
  ℕ, ◌≤◌, ◌<◌, ◌≡◌, Bool, true, false, some, List, [], ◌∷◌, ◌++◌, without, inl, inr,
}
use edp_threading.Topology.{Topology}
use edp_threading.Task.Control.{TaskOperationalState, TaskInvocationOutcome, state, has_owner}
use edp_threading.Task.Payload.{Adapter, Behaviour, Payload, HoldsOutcome}
use edp_threading.Task.Record.{invalid_context}
use edp_threading.Facility.Core.{
  TaskFacilityCore, initial_core, is_current_incarnation, admit, claim_next_for_worker, invoke_task,
  publish_invocation_outcome, cancel, release_task_owner, take_result, reclaim,
}
use edp_threading.Facility.Invariant.{Inv, IsExecuting}
use edp_threading.Facility.Admission.{admit_lem, Admits, initial_core-Inv}
use edp_threading.Facility.Grant.{claim_lem, Claims}
use edp_threading.Facility.Cancellation.{cancel_lem, CancelsIn}
use edp_threading.Facility.Release.{release_task_owner_lem, ReleasesIn}
use edp_threading.Facility.Completion.{invoke_task_lem, publish_invocation_outcome_lem}
use edp_threading.Facility.Taking.{take_result_lem, TakesIn}
use edp_threading.Facility.Reclamation.{reclaim_lem, Reclaims}

module _ (t : Topology) (run : Behaviour) where
  pub data Step : TaskFacilityCore t → TaskFacilityCore t → Type 0 where
    admits : (c : TaskFacilityCore t) (f : ℕ) (a : Adapter) → Step c (admit t c f a).0
    claims :
        (c : TaskFacilityCore t) (context : ℕ)
        → context ≤ invalid_context t
        → Step c (claim_next_for_worker t c context).0
    invokes :
        (c : TaskFacilityCore t) (i f : ℕ) (a : Adapter)
        → i < t.records
        → t.availability.is_set c.availability i ≡ false
        → IsExecuting (state (c.records i).control)
        → (c.records i).operations ≡ some a
        → (c.records i).payload ≡ Payload.callable f
        → Step c (invoke_task t run c i).0
    publishes :
        (c : TaskFacilityCore t) (i : ℕ) (p : Bool) (a : Adapter) (o : TaskInvocationOutcome)
        → i < t.records
        → t.availability.is_set c.availability i ≡ false
        → IsExecuting (state (c.records i).control)
        → is_current_incarnation t c i p ≡ true
        → (c.records i).operations ≡ some a
        → HoldsOutcome a o (c.records i).payload
        → Step c (publish_invocation_outcome t c i p o)
    cancels :
        (c : TaskFacilityCore t) (i : ℕ) (p : Bool)
        → i < t.records
        → t.availability.is_set c.availability i ≡ false
        → Step c (cancel t c i p).0
    releases :
        (c : TaskFacilityCore t) (i : ℕ) (p : Bool)
        → i < t.records
        → has_owner (c.records i).control ≡ true
        → is_current_incarnation t c i p ≡ true
        → Step c (release_task_owner t c i p).0
    takes :
        (c : TaskFacilityCore t) (i : ℕ) (p : Bool)
        → i < t.records
        → has_owner (c.records i).control ≡ true
        → is_current_incarnation t c i p ≡ true
        → Step c (take_result t c i p).0
    reclaims :
        (c : TaskFacilityCore t) (i : ℕ) (p : Bool) → i < t.records → Step c (reclaim t c i p).0

  pub data Reachable : TaskFacilityCore t → Type 0 where
    begins : Reachable (initial_core t)
    steps : (c d : TaskFacilityCore t) → Reachable c → Step c d → Reachable d

  abbrev pub Valid : TaskFacilityCore t → Type 0
  Valid c = (q : List ℕ) × Inv t c q

  admitted-Valid :
      (c : TaskFacilityCore t) (q : List ℕ) (f : ℕ) (a : Adapter)
      → Inv t c q
      → Admits t c q f a (admit t c f a)
      → Valid (admit t c f a).0
  admitted-Valid c q f a v (inl full) = (q, rw full.1 v)
  admitted-Valid c q f a v (inr at) = (q ++ at.1.0 ∷ [], at.1.1.valid)

  claimed-Valid :
      (c : TaskFacilityCore t) (q : List ℕ) (context : ℕ)
      → Inv t c q
      → Claims t c context q (claim_next_for_worker t c context)
      → Valid (claim_next_for_worker t c context).0
  claimed-Valid c [] context v same = ([], rw same v)
  claimed-Valid c (i ∷ rest) context v at = (rest, at.valid)

  cancelled-Valid :
      (c : TaskFacilityCore t) (q : List ℕ) (i : ℕ) (s : TaskOperationalState) (p : Bool)
      → Inv t c q
      → CancelsIn t c q i s (cancel t c i p)
      → Valid (cancel t c i p).0
  cancelled-Valid c q i TaskOperationalState.queued p v at = (without i q, at.0.valid)
  cancelled-Valid c q i TaskOperationalState.running p v at = (q, at.0.valid)
  cancelled-Valid c q i TaskOperationalState.running_cancel_requested p v at = (q, rw at v)
  cancelled-Valid c q i TaskOperationalState.completed p v at = (q, rw at v)
  cancelled-Valid c q i TaskOperationalState.cancelled p v at = (q, rw at v)
  cancelled-Valid c q i TaskOperationalState.unnamed p v at = (q, rw at v)

  released-Valid :
      (c : TaskFacilityCore t) (q : List ℕ) (i : ℕ) (s : TaskOperationalState) (p : Bool)
      → ReleasesIn t c q i s (release_task_owner t c i p)
      → Valid (release_task_owner t c i p).0
  released-Valid c q i TaskOperationalState.queued p at = (without i q, at.0.2.valid)
  released-Valid c q i TaskOperationalState.running p at = (q, at.0.valid)
  released-Valid c q i TaskOperationalState.running_cancel_requested p at = (q, at.0.valid)
  released-Valid c q i TaskOperationalState.completed p at = (q, at.0.valid)
  released-Valid c q i TaskOperationalState.cancelled p at = (q, at.0.valid)
  released-Valid c q i TaskOperationalState.unnamed p at = absurd at

  taken-Valid :
      (c : TaskFacilityCore t) (q : List ℕ) (i : ℕ) (s : TaskOperationalState) (p : Bool)
      → Inv t c q
      → TakesIn t c q i s (take_result t c i p)
      → Valid (take_result t c i p).0
  taken-Valid c q i TaskOperationalState.completed p v at = (q, at.0.valid)
  taken-Valid c q i TaskOperationalState.queued p v at = (q, rw at v)
  taken-Valid c q i TaskOperationalState.running p v at = (q, rw at v)
  taken-Valid c q i TaskOperationalState.running_cancel_requested p v at = (q, rw at v)
  taken-Valid c q i TaskOperationalState.cancelled p v at = (q, rw at v)
  taken-Valid c q i TaskOperationalState.unnamed p v at = (q, rw at v)

  reclaimed-Valid :
      (c : TaskFacilityCore t) (q : List ℕ) (i : ℕ) (p : Bool)
      → Inv t c q
      → Reclaims t c q i p (reclaim t c i p)
      → Valid (reclaim t c i p).0
  reclaimed-Valid c q i p v (inl at) = (q, at.4.valid)
  reclaimed-Valid c q i p v (inr (why, same)) = (q, rw same v)

  Step-Valid : (c d : TaskFacilityCore t) (q : List ℕ) → Inv t c q → Step c d → Valid d
  Step-Valid c d q v (admits _ f a) = admitted-Valid c q f a v (admit_lem t c q f a v)
  Step-Valid c d q v (claims _ context small) =
      claimed-Valid c q context v (claim_lem t c q context v small)
  Step-Valid c d q v (invokes _ i f a below taken runs ops holds) =
      (q, (invoke_task_lem t c q i v below taken runs run a f ops holds).0.valid)
  Step-Valid c d q v (publishes _ i p a o below taken runs current ops holds) =
      (q, (publish_invocation_outcome_lem t c q i v below taken runs p a o current ops holds).valid)
  Step-Valid c d q v (cancels _ i p below taken) = elim (cancel_lem t c q i v below taken p) [
    | inl (stale, same) ↦ (q, rw same v)
    | inr (current, at) ↦ cancelled-Valid c q i (state (c.records i).control) p v at
  ]
  Step-Valid c d q v (releases _ i p below owned current) =
      released-Valid c q i (state (c.records i).control) p
        (release_task_owner_lem t c q i v below owned p current)
  Step-Valid c d q v (takes _ i p below owned current) =
      taken-Valid c q i (state (c.records i).control) p v
        (take_result_lem t c q i v below owned p current)
  Step-Valid c d q v (reclaims _ i p below) =
      reclaimed-Valid c q i p v (reclaim_lem t c q i v below p)

  -- Every core that calls can reach from the constructor's, in any order and interleaving that
  -- respects the callers' side of each call (a step of `Step`), is well formed for some queue.
  pub Reachable-Valid : (c : TaskFacilityCore t) → Reachable c → Valid c
  Reachable-Valid c begins = ([], initial_core-Inv t)
  Reachable-Valid c (steps b _ r s) = let (q, v) = Reachable-Valid b r in Step-Valid b c q v s
