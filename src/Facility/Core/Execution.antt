-- ===== src/Facility/Core/Execution.antt =====
-- src/threading/detail/TaskFacilityCore.hpp: the grant of a queued record to a Worker, its
-- invocation, and the publication of the outcome.
use edp_threading.Base.{
  ℕ, Bool, ◌&&◌, ◌||◌, Option, none, some, ◌==◌, if◌then◌else◌, update, first_index,
}
use edp_threading.Topology.{Topology}
use edp_threading.Task.Control.{
  TaskOperationalState, TaskInvocationOutcome, same_state, state, has_owner, set_state,
}
use edp_threading.Task.Payload.{Behaviour, Payload, invoke, destroy_result, through}
use edp_threading.Task.Record.{
  TaskRecord, set_execution_context_index, current_execution_context_index,
}
use edp_threading.Facility.Core.State.{
  TaskRecordBinding, TaskWorkerClaimResult, TaskFacilityCore, write_records, links, set_record,
  is_current_incarnation, binding,
}

abbrev pub drop_unowned_result : TaskRecord → TaskRecord
drop_unowned_result r =
    if has_owner r.control
    then r
    else record r { payload = through r.operations (λ a. destroy_result a r.payload) }

abbrev pub with_state : TaskRecord → TaskOperationalState → TaskRecord
with_state r s = record r { control = set_state r.control s }

abbrev pub published : TaskRecord → TaskInvocationOutcome → TaskRecord
published r TaskInvocationOutcome.completed =
    with_state (drop_unowned_result r) TaskOperationalState.completed
published r TaskInvocationOutcome.cancelled = with_state r TaskOperationalState.cancelled

module _ (t : Topology) where
  -- The grant of a popped record to a context.
  abbrev pub granted : TaskRecord → ℕ → TaskRecord
  granted r context = record (set_execution_context_index t r context) {
    control = set_state r.control TaskOperationalState.running;
  }

  -- ClaimNextForWorker.
  unfoldable pub claim_next_for_worker :
      TaskFacilityCore t → ℕ → TaskFacilityCore t × TaskWorkerClaimResult
  claim_next_for_worker c context = elim (t.queue.pop c.ends (links t c.records)) [
    | none ↦ (c, TaskWorkerClaimResult.queue_empty)
    | some (i, e, ws) ↦
        let rs = write_records t c.records ws in
        let d : TaskFacilityCore t = record c {
          records = update rs i (granted (rs i) context);
          ends = e;
        } in
        (d, TaskWorkerClaimResult.claimed (binding t d i))
  ]

  abbrev pub runs_on : TaskRecord → ℕ → Bool
  runs_on r context =
      (same_state (state r.control) TaskOperationalState.running
        || same_state (state r.control) TaskOperationalState.running_cancel_requested)
      && current_execution_context_index t r == context

  -- AssignedTaskForContext.
  unfoldable pub assigned_task_for_context : TaskFacilityCore t → ℕ → Option TaskRecordBinding
  unfolding first_index
  assigned_task_for_context c context =
      elim (first_index t.records 0 (λ i. runs_on (c.records i) context)) [
        | none ↦ none
        | some i ↦ some (binding t c i)
      ]

  -- Invoke runs without the facility's lock; `run` is what the callables do.
  unfoldable pub invoke_task :
      Behaviour → TaskFacilityCore t → ℕ → TaskFacilityCore t × TaskInvocationOutcome
  invoke_task run c i =
      let r = c.records i in
      elim r.operations [
        | none ↦ (
          set_record t c i (record r { payload = Payload.corrupt }),
          TaskInvocationOutcome.completed,
        )
        | some a ↦
            let (p, o) = invoke run a r.payload in (set_record t c i (record r { payload = p }), o)
      ]

  -- PublishInvocationOutcome.
  unfoldable pub publish_invocation_outcome :
      TaskFacilityCore t → ℕ → Bool → TaskInvocationOutcome → TaskFacilityCore t
  publish_invocation_outcome c i p o =
      if is_current_incarnation t c i p then set_record t c i (published (c.records i) o) else c
