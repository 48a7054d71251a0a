-- ===== src/Examples/Topologies.antt =====
-- A topology of two Workers and two records, and the stages of a Task's life in its facility.
use edp_threading.Base.{◌≡◌, refl, true, false, some, [], ◌∷◌, arith, first_index}
use edp_threading.Topology.{Topology}
use edp_threading.Topology.Lawful.{plain_index, plain_set, plain_queue}
use edp_threading.Task.Control.{
  TaskOperationalState, TaskInvocationOutcome, state, has_owner, phase, decode, encode, initial,
  initialize_queued, set_state,
}
use edp_threading.Task.Payload.{Adapter, Payload, Behaviour}
use edp_threading.Task.Record.{
  blank, to_scratch, set_queue_next, queue_next, set_execution_context_index,
}
use edp_threading.Facility.Core.{
  TaskFacilityCore, initial_core, queue_push, admit_into, admit_cleared, admit,
  claim_next_for_worker, is_current_incarnation, invoke_task, publish_invocation_outcome,
  release_task_owner,
}
use edp_threading.Facility.Invariant.{Inv}
use edp_threading.Facility.Admission.{initial_core-Inv, admit_into-AdmittedAt}
use edp_threading.Facility.Grant.{claim_lem}
use edp_threading.Facility.Release.{release_task_owner_lem}
use edp_threading.Facility.Completion.{invoke_task_lem, publish_invocation_outcome_lem}

-- Workers have the contexts 1 and 2; context 0 is a Dedicated Thread's.
abbrev pub two : Topology
two = record {
  records = 2;
  contexts = 3;
  workers = 2;
  first_context = 1;
  index = plain_index;
  availability = plain_set 2;
  queue = plain_queue 2;
  leases = plain_set 2;
  workers_fit = omega arith;
}

-- Every callable returns its own number.
abbrev pub returning : Behaviour
returning f = some f

abbrev pub queued_core : TaskFacilityCore two
queued_core = (admit two (initial_core two) 7 Adapter.typed).0

pub queued_core-Inv : Inv two queued_core (0 ∷ [])
unfolding admit admit_cleared first_index initial_core queue_push
queued_core-Inv =
    (admit_into-AdmittedAt two (initial_core two) [] 7 Adapter.typed 0 (initial_core-Inv two)
      (omega arith) refl).valid

pub queued_facts : two.availability.is_set queued_core.availability 0 ≡ false
unfolding admit admit_cleared admit_into first_index initial_core queue_push
queued_facts = refl

abbrev pub running_core : TaskFacilityCore two
running_core = (claim_next_for_worker two queued_core 1).0

pub running_core-Inv : Inv two running_core []
running_core-Inv = (claim_lem two queued_core (0 ∷ []) 1 queued_core-Inv (omega arith)).valid

abbrev pub invoked_core : TaskFacilityCore two
invoked_core = (invoke_task two returning running_core 0).0

-- What the running record is, as the tests need it.
pub running_facts :
    (two.availability.is_set running_core.availability 0 ≡ false)
    × (state (running_core.records 0).control ≡ TaskOperationalState.running)
    × ((running_core.records 0).operations ≡ some Adapter.typed)
    × ((running_core.records 0).payload ≡ Payload.callable 7)
    × (is_current_incarnation two running_core 0 true ≡ true)
    × (has_owner (running_core.records 0).control ≡ true)
unfolding admit admit_cleared admit_into first_index initial_core queue_push blank to_scratch
    set_queue_next queue_next initialize_queued state has_owner phase decode encode initial
    claim_next_for_worker set_execution_context_index set_state is_current_incarnation
running_facts = (refl, refl, refl, refl, refl, refl)

pub invoked_core-Inv : Inv two invoked_core []
invoked_core-Inv =
    (invoke_task_lem two running_core [] 0 running_core-Inv (omega arith) running_facts.0
      (rw running_facts.1 tt) returning Adapter.typed 7 running_facts.2 running_facts.3).0.valid

abbrev pub completed_core : TaskFacilityCore two
completed_core = publish_invocation_outcome two invoked_core 0 true TaskInvocationOutcome.completed

pub invoked_facts :
    (two.availability.is_set invoked_core.availability 0 ≡ false)
    × (state (invoked_core.records 0).control ≡ TaskOperationalState.running)
    × ((invoked_core.records 0).operations ≡ some Adapter.typed)
    × ((invoked_core.records 0).payload ≡ Payload.result 7)
    × (is_current_incarnation two invoked_core 0 true ≡ true)
unfolding admit admit_cleared admit_into first_index initial_core queue_push blank to_scratch
    set_queue_next queue_next initialize_queued state has_owner phase decode encode initial
    claim_next_for_worker set_execution_context_index set_state is_current_incarnation invoke_task
invoked_facts = (refl, refl, refl, refl, refl)

pub completed_core-Inv : Inv two completed_core []
completed_core-Inv =
    (publish_invocation_outcome_lem two invoked_core [] 0 invoked_core-Inv (omega arith)
      invoked_facts.0 (rw invoked_facts.1 tt) true Adapter.typed TaskInvocationOutcome.completed
      invoked_facts.4 invoked_facts.2 (rw invoked_facts.3 tt)).valid

abbrev pub released_core : TaskFacilityCore two
released_core = (release_task_owner two completed_core 0 true).0

pub completed_facts :
    (two.availability.is_set completed_core.availability 0 ≡ false)
    × (state (completed_core.records 0).control ≡ TaskOperationalState.completed)
    × (has_owner (completed_core.records 0).control ≡ true)
    × (is_current_incarnation two completed_core 0 true ≡ true)
unfolding admit admit_cleared admit_into first_index initial_core queue_push blank to_scratch
    set_queue_next queue_next initialize_queued state has_owner phase decode encode initial
    claim_next_for_worker set_execution_context_index set_state is_current_incarnation invoke_task
    publish_invocation_outcome
completed_facts = (refl, refl, refl, refl)

pub released_core-Inv : Inv two released_core []
released_core-Inv =
    (rw completed_facts.1 at (
      release_task_owner_lem two completed_core [] 0 completed_core-Inv (omega arith)
        completed_facts.2 true completed_facts.3)).0.valid
