-- ===== src/Examples/Facilities.antt =====
-- The theorems on a facility's core, applied to the life of one Task.
use edp_threading.Base.{ℕ, ◌<◌, ◌≡◌, ◌↔◌, true, false, some, [], ◌∷◌, arith}
use edp_threading.Task.Control.{TaskInvocationOutcome, state, has_owner}
use edp_threading.Task.Payload.{Adapter}
use edp_threading.Facility.Core.{
  initial_core, admit, claim_next_for_worker, invoke_task, publish_invocation_outcome, cancel,
  release_task_owner, take_result, reclaim, queued_tasks, has_execution_work,
}
use edp_threading.Facility.Update.{UpdatedAt}
use edp_threading.Facility.Admission.{Admits, admit_lem, initial_core-Inv}
use edp_threading.Facility.Grant.{Claims, claim_lem}
use edp_threading.Facility.Cancellation.{Cancels, cancel_lem}
use edp_threading.Facility.Release.{ReleasesIn, release_task_owner_lem}
use edp_threading.Facility.Completion.{
  outcome_of, payload_of, state_of, kept_payload, invoke_task_lem, publish_invocation_outcome_lem,
}
use edp_threading.Facility.Taking.{TakesIn, take_result_lem}
use edp_threading.Facility.Reclamation.{Reclaims, reclaim_lem}
use edp_threading.Facility.Counting.{IsIdle, queued_tasks_lem, has_execution_work_lem}
use edp_threading.Examples.Topologies.{
  two, returning, queued_core, queued_core-Inv, queued_facts, running_core, running_core-Inv,
  running_facts, invoked_core, invoked_core-Inv, invoked_facts, completed_core, completed_core-Inv,
  completed_facts, released_core, released_core-Inv,
}

admit_lem_example :
    Admits two (initial_core two) [] 7 Adapter.typed (admit two (initial_core two) 7 Adapter.typed)
admit_lem_example = admit_lem two (initial_core two) [] 7 Adapter.typed (initial_core-Inv two)

claim_lem_example : Claims two queued_core 1 (0 ∷ []) (claim_next_for_worker two queued_core 1)
claim_lem_example = claim_lem two queued_core (0 ∷ []) 1 queued_core-Inv (omega arith)

invoke_task_lem_example :
    UpdatedAt two running_core [] 0
      (state (running_core.records 0).control)
      (has_owner (running_core.records 0).control)
      (payload_of Adapter.typed (returning 7))
      (invoke_task two returning running_core 0).0
    × ((invoke_task two returning running_core 0).1 ≡ outcome_of (returning 7))
invoke_task_lem_example =
    invoke_task_lem two running_core [] 0 running_core-Inv (omega arith) running_facts.0
      (rw running_facts.1 tt) returning Adapter.typed 7 running_facts.2 running_facts.3

publish_invocation_outcome_lem_example :
    UpdatedAt two invoked_core [] 0
      (state_of TaskInvocationOutcome.completed)
      (has_owner (invoked_core.records 0).control)
      (kept_payload (has_owner (invoked_core.records 0).control) (invoked_core.records 0).payload)
      (publish_invocation_outcome two invoked_core 0 true TaskInvocationOutcome.completed)
publish_invocation_outcome_lem_example =
    publish_invocation_outcome_lem two invoked_core [] 0 invoked_core-Inv (omega arith)
      invoked_facts.0 (rw invoked_facts.1 tt) true Adapter.typed TaskInvocationOutcome.completed
      invoked_facts.4 invoked_facts.2 (rw invoked_facts.3 tt)

cancel_lem_example : Cancels two queued_core (0 ∷ []) 0 true (cancel two queued_core 0 true)
cancel_lem_example =
    cancel_lem two queued_core (0 ∷ []) 0 queued_core-Inv (omega arith) queued_facts true

release_task_owner_lem_example :
    ReleasesIn two completed_core [] 0
      (state (completed_core.records 0).control)
      (release_task_owner two completed_core 0 true)
release_task_owner_lem_example =
    release_task_owner_lem two completed_core [] 0 completed_core-Inv (omega arith)
      completed_facts.2 true completed_facts.3

take_result_lem_example :
    TakesIn two completed_core [] 0
      (state (completed_core.records 0).control)
      (take_result two completed_core 0 true)
take_result_lem_example =
    take_result_lem two completed_core [] 0 completed_core-Inv (omega arith) completed_facts.2 true
      completed_facts.3

reclaim_lem_example : Reclaims two released_core [] 0 true (reclaim two released_core 0 true)
reclaim_lem_example = reclaim_lem two released_core [] 0 released_core-Inv (omega arith) true

queued_tasks_lem_example : queued_tasks two queued_core ≡ some 1
queued_tasks_lem_example = queued_tasks_lem two queued_core (0 ∷ []) queued_core-Inv

has_execution_work_lem_example : (has_execution_work two queued_core ≡ false) ↔ (
    (i : ℕ)
    → i < 2
    → two.availability.is_set queued_core.availability i ≡ false
    → IsIdle two (state (queued_core.records i).control))
has_execution_work_lem_example = has_execution_work_lem two queued_core
