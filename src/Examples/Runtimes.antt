-- ===== src/Examples/Runtimes.antt =====
-- The scheduling pass on one queued Task, with both Workers idle.
use edp_threading.Base.{ℕ, ◌+◌, ◌==◌, arith, not, true, none, [], ◌∷◌}
use edp_threading.Lifecycle.{Outcome}
use edp_threading.Runtime.{Router, TaskFacilityRuntime, schedule_available_workers}
use edp_threading.Runtime.Fairness.{Schedules, schedule_available_workers_lem}
use edp_threading.Runtime.Completion.{Mutex, complete_worker_task}
use edp_threading.Runtime.Completion.Handover.{Completes, complete_worker_task_lem}
use edp_threading.Task.Control.{TaskInvocationOutcome}
use edp_threading.Task.Payload.{Adapter}
use edp_threading.Facility.Core.{TaskRecordBinding}
use edp_threading.Examples.Topologies.{
  two, queued_core, queued_core-Inv, invoked_core, invoked_core-Inv, invoked_facts,
}

-- The pass runs outside of managed contexts; the world counts the wakes.
abbrev pub counting : Router ℕ
counting = record {
  current_context_index = none;
  wake = λ context w. (w + 1, Outcome.succeeded);
  provider_failure = 1;
}

abbrev pub idle : TaskFacilityRuntime two ℕ
idle = record {
  core = queued_core;
  workers = λ i. true;
  waiters = λ i. record { record_index = 0; phase = true; waiting_context_index = i };
  admission_waiters = λ i. record { waiting_context_index = 3 };
  world = 0;
}

schedule_available_workers_lem_example :
    Schedules two 4 counting (0 ∷ []) (schedule_available_workers two 4 counting idle)
schedule_available_workers_lem_example =
    schedule_available_workers_lem two 4 counting idle (0 ∷ []) queued_core-Inv

abbrev pub free_mutex : Mutex ℕ
free_mutex = record { acquire = λ w. (w, true); release = λ w. (w, true) }

-- The Task of record 0 has run on the first Worker, and only that is leased.
abbrev ran : TaskFacilityRuntime two ℕ
ran = record idle { core = invoked_core; workers = λ i. not (i == 0) }

abbrev ran_binding : TaskRecordBinding
ran_binding = record { record_index = 0; phase = true }

complete_worker_task_lem_example :
    Completes two 4 counting free_mutex ran [] 1 ran_binding TaskInvocationOutcome.completed (
      complete_worker_task two 4 counting free_mutex ran 1 ran_binding
        TaskInvocationOutcome.completed)
complete_worker_task_lem_example =
    complete_worker_task_lem two 4 counting free_mutex ran [] 1 ran_binding
      TaskInvocationOutcome.completed Adapter.typed invoked_core-Inv (omega arith) invoked_facts.0
      (rw invoked_facts.1 tt) invoked_facts.4 invoked_facts.2 (rw invoked_facts.3 tt)
