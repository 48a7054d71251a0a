-- ===== src/Facility/Completion.antt =====
-- What TaskFacilityCore::Invoke and TaskFacilityCore::PublishInvocationOutcome guarantee together.
use edp_threading.Base.{ℕ, ◌<◌, ◌≡◌, ◌∙◌, refl, Bool, true, false, Option, none, some, List, elem}
use edp_threading.Topology.{Topology}
use edp_threading.Task.Control.{
  TaskOperationalState, TaskInvocationOutcome, state, has_owner, set_state,
}
use edp_threading.Task.Control.Laws.{set_state_lem}
use edp_threading.Task.Payload.{Payload, Adapter, Behaviour, HoldsOutcome, invoke}
use edp_threading.Facility.Core.{
  TaskFacilityCore, set_record, published, publish_invocation_outcome, invoke_task,
  is_current_incarnation,
}
use edp_threading.Facility.Invariant.{
  Inv, IsExecuting, NotCorrupt, AllocatedOk, AllocatedOk-executing, AllocatedOk-payload,
  AllocatedOk-completed, AllocatedOk-destroyed, HoldsOutcome-cancelled,
}
use edp_threading.Facility.Update.{UpdatedAt, set_record-UpdatedAt}

-- The outcome and the payload that a callable leaves.
abbrev pub outcome_of : Option ℕ → TaskInvocationOutcome
outcome_of none = TaskInvocationOutcome.cancelled
outcome_of (some r) = TaskInvocationOutcome.completed

abbrev pub payload_of : Adapter → Option ℕ → Payload
payload_of Adapter.typed (some r) = Payload.result r
payload_of _ _ = Payload.raw

invoke-callable :
    (run : Behaviour) (a : Adapter) (f : ℕ)
    → invoke run a (Payload.callable f) ≡ (payload_of a (run f), outcome_of (run f))
invoke-callable run a f = by_result a (run f)
  where
    by_result :
        (a : Adapter) (o : Option ℕ)
        → invoke (λ g. o) a (Payload.callable 0) ≡ (payload_of a o, outcome_of o)
    by_result Adapter.typed none = refl
    by_result Adapter.typed (some r) = refl
    by_result Adapter.untyped none = refl
    by_result Adapter.untyped (some r) = refl

payload_of-HoldsOutcome :
    (a : Adapter) (o : Option ℕ) → HoldsOutcome a (outcome_of o) (payload_of a o)
payload_of-HoldsOutcome Adapter.typed none = tt
payload_of-HoldsOutcome Adapter.typed (some r) = tt
payload_of-HoldsOutcome Adapter.untyped none = tt
payload_of-HoldsOutcome Adapter.untyped (some r) = tt

payload_of-NotCorrupt : (a : Adapter) (o : Option ℕ) → NotCorrupt (payload_of a o)
payload_of-NotCorrupt Adapter.typed none = tt
payload_of-NotCorrupt Adapter.typed (some r) = tt
payload_of-NotCorrupt Adapter.untyped none = tt
payload_of-NotCorrupt Adapter.untyped (some r) = tt

-- The terminal state of an outcome.
abbrev pub state_of : TaskInvocationOutcome → TaskOperationalState
state_of TaskInvocationOutcome.completed = TaskOperationalState.completed
state_of TaskInvocationOutcome.cancelled = TaskOperationalState.cancelled

-- What a record keeps of an outcome: a result stays for the owner, and for nobody else.
abbrev pub kept_payload : Bool → Payload → Payload
kept_payload true p = p
kept_payload false p = Payload.raw

module _ (t : Topology) where
  module _ (c : TaskFacilityCore t) (q : List ℕ) (i : ℕ) (v : Inv t c q) (below : i < t.records)
      (taken : t.availability.is_set c.availability i ≡ false)
      (runs : IsExecuting (state (c.records i).control)) where
    executing_ok :
        AllocatedOk
          (elem i q)
          (state (c.records i).control)
          (has_owner (c.records i).control)
          (c.records i).payload
          (c.records i).operations
    executing_ok = rw taken at (v.ok i below).0

    not_queued : elem i q ≡ false
    not_queued =
        AllocatedOk-executing (elem i q) (has_owner (c.records i).control)
          (state (c.records i).control) (c.records i).payload (c.records i).operations runs
          executing_ok

    -- Invoke of an executing record of a well-formed core, which holds a callable and has
    -- operations, replaces the callable by its result, or by nothing for a cancelled or
    -- `void` completion, returns the outcome of the callable, changes no control byte and no
    -- other record, and the core is well formed.
    pub invoke_task_lem :
        (run : Behaviour) (a : Adapter) (f : ℕ)
        → (c.records i).operations ≡ some a
        → (c.records i).payload ≡ Payload.callable f
        → UpdatedAt t c q i
            (state (c.records i).control)
            (has_owner (c.records i).control)
            (payload_of a (run f))
            (invoke_task t run c i).0
          × ((invoke_task t run c i).1 ≡ outcome_of (run f))
    unfolding invoke_task
    invoke_task_lem run a f ops holds =
        rw (ops, holds, invoke_task, invoke-callable run a f)
          (
            set_record-UpdatedAt t c q i (state (c.records i).control)
                (has_owner (c.records i).control) (payload_of a (run f)) (c.records i).control v
                taken (refl, refl, refl, (v.ok i below).1)
                (AllocatedOk-payload (elem i q) (has_owner (c.records i).control)
                  (state (c.records i).control) (c.records i).payload (payload_of a (run f))
                  (c.records i).operations runs (payload_of-NotCorrupt a (run f)) executing_ok),
            refl,
          )

    publish_owned :
        (a : Adapter) (owner : Bool) (o : TaskInvocationOutcome)
        → (c.records i).operations ≡ some a
        → has_owner (c.records i).control ≡ owner
        → HoldsOutcome a o (c.records i).payload
        → UpdatedAt t c q i
            (state_of o)
            owner
            (kept_payload owner (c.records i).payload)
            (set_record t c i (published (c.records i) o))
    publish_owned a true TaskInvocationOutcome.completed ops owned h =
        let f =
          set_state_lem (c.records i).control TaskOperationalState.completed (v.ok i below).1 in
        rw owned (
          set_record-UpdatedAt t c q i TaskOperationalState.completed true (c.records i).payload
            (set_state (c.records i).control TaskOperationalState.completed) v taken
            (f.0, f.1 ∙ owned, f.2, f.3)
            (rw ops (AllocatedOk-completed (elem i q) (c.records i).payload a not_queued h)))
    publish_owned a false TaskInvocationOutcome.completed ops owned h =
        let f =
          set_state_lem (c.records i).control TaskOperationalState.completed (v.ok i below).1 in
        let gone =
          AllocatedOk-destroyed (elem i q) (c.records i).payload (c.records i).operations
            (rw ops (AllocatedOk-completed (elem i q) (c.records i).payload a not_queued h)) in
        rw (owned, gone.0)
          (set_record-UpdatedAt t c q i TaskOperationalState.completed false Payload.raw
            (set_state (c.records i).control TaskOperationalState.completed) v taken
            (f.0, f.1 ∙ owned, f.2, f.3) gone.1)
    publish_owned a true TaskInvocationOutcome.cancelled ops owned h =
        let f =
          set_state_lem (c.records i).control TaskOperationalState.cancelled (v.ok i below).1 in
        set_record-UpdatedAt t c q i TaskOperationalState.cancelled true (c.records i).payload
          (set_state (c.records i).control TaskOperationalState.cancelled) v taken
          (f.0, f.1 ∙ owned, f.2, f.3)
          (rw ops (not_queued, HoldsOutcome-cancelled a (c.records i).payload h))
    publish_owned a false TaskInvocationOutcome.cancelled ops owned h =
        let f =
          set_state_lem (c.records i).control TaskOperationalState.cancelled (v.ok i below).1 in
        let gone = HoldsOutcome-cancelled a (c.records i).payload h in
        rw (← gone) (
          set_record-UpdatedAt t c q i TaskOperationalState.cancelled false (c.records i).payload
            (set_state (c.records i).control TaskOperationalState.cancelled) v taken
            (f.0, f.1 ∙ owned, f.2, f.3) (rw ops (not_queued, gone)))

    -- PublishInvocationOutcome on a current and executing record of a well-formed core,
    -- whose storage is as an invocation with this outcome leaves it, makes the record
    -- Completed or Cancelled as the outcome says; an owned record keeps its result and an
    -- unowned one has it destroyed. Ownership, Phase, operations and every other record
    -- stand, and the core is well formed.
    pub publish_invocation_outcome_lem :
        (p : Bool) (a : Adapter) (o : TaskInvocationOutcome)
        → is_current_incarnation t c i p ≡ true
        → (c.records i).operations ≡ some a
        → HoldsOutcome a o (c.records i).payload
        → UpdatedAt t c q i
            (state_of o)
            (has_owner (c.records i).control)
            (kept_payload (has_owner (c.records i).control) (c.records i).payload)
            (publish_invocation_outcome t c i p o)
    unfolding publish_invocation_outcome
    publish_invocation_outcome_lem p a o current ops h =
        rw (current, publish_invocation_outcome)
          (publish_owned a (has_owner (c.records i).control) o ops refl h)
