-- ===== src/Examples/Handles.antt =====
-- The theorems on handles, dispatch and shutdown, applied to a facility with one Task.
use edp_threading.Base.{ℕ, true, false, [], ◌∷◌, arith}
use edp_threading.Facility.Core.{TaskRecordBinding, binding}
use edp_threading.Runtime.{TaskFacilityRuntime}
use edp_threading.Runtime.Handles.{cancel_task, release_owner_of}
use edp_threading.Runtime.Handles.Laws.{ReleasesOwner, release_owner_of_lem}
use edp_threading.Runtime.Handles.Settling.{CancelsTask, cancel_task_lem}
use edp_threading.Runtime.Shutdown.{begin_shutdown_cancellation}
use edp_threading.Runtime.Shutdown.Sweep.{ShutsDown, begin_shutdown_cancellation_lem}
use edp_threading.Examples.Topologies.{
  two, queued_core, queued_core-Inv, queued_facts, running_core, running_core-Inv, running_facts,
}
use edp_threading.Examples.Runtimes.{counting, free_mutex, idle}

abbrev first : TaskRecordBinding
first = record { record_index = 0; phase = true }

-- The Task of record 0 runs on the first Worker.
abbrev running : TaskFacilityRuntime two ℕ
running = record idle { core = running_core; workers = λ i. false }

cancel_task_lem_example :
    CancelsTask two 4 counting free_mutex idle 0
      (cancel_task two 4 counting free_mutex idle (binding two queued_core 0))
cancel_task_lem_example =
    cancel_task_lem two 4 counting free_mutex idle (0 ∷ []) 0 queued_core-Inv (omega arith)
      queued_facts

release_owner_of_lem_example :
    ReleasesOwner two 4 counting free_mutex running first
      (release_owner_of two 4 counting free_mutex running first)
release_owner_of_lem_example =
    release_owner_of_lem two 4 counting free_mutex running [] first running_core-Inv (omega arith)
      running_facts.5 running_facts.4

begin_shutdown_cancellation_lem_example :
    ShutsDown two 4 counting free_mutex idle
      (begin_shutdown_cancellation two 4 counting free_mutex idle)
begin_shutdown_cancellation_lem_example =
    begin_shutdown_cancellation_lem two 4 counting free_mutex idle (0 ∷ []) queued_core-Inv
