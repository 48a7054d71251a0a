-- ===== src/Examples/Histories.antt =====
-- The theorems on histories of calls and on reused records, applied.
use edp_threading.Base.{refl, true, [], arith, first_index}
use edp_threading.Task.Control.{phase, state, has_owner, initial, initialize_queued, decode, encode}
use edp_threading.Task.Payload.{Adapter}
use edp_threading.Task.Record.{blank, to_scratch, set_queue_next, queue_next}
use edp_threading.Facility.Core.{
  TaskRecordBinding, initial_core, queue_push, admit_into, admit_cleared, admit,
}
use edp_threading.Facility.Admission.{initial_core-Inv}
use edp_threading.Facility.History.{
  Reachable, Valid, Reachable-Valid, admits, claims, invokes, publishes, begins, steps,
}
use edp_threading.Facility.Reuse.{Refuses, admit-Refuses}
use edp_threading.Examples.Topologies.{
  two, returning, queued_core, running_core, invoked_core, completed_core, running_facts,
  invoked_facts,
}

-- One Task is admitted, granted, invoked and completed.
lived : Reachable two returning completed_core
lived =
    steps invoked_core completed_core
      (steps running_core invoked_core
        (steps queued_core running_core
          (steps (initial_core two) queued_core begins (admits (initial_core two) 7 Adapter.typed))
          (claims queued_core 1 (omega arith)))
        (invokes running_core 0 7 Adapter.typed (omega arith) running_facts.0
          (rw running_facts.1 tt) running_facts.2 running_facts.3))
      (publishes invoked_core 0 true Adapter.typed _ (omega arith) invoked_facts.0
        (rw invoked_facts.1 tt) invoked_facts.4 invoked_facts.2 (rw invoked_facts.3 tt))

Reachable-Valid_example : Valid two returning completed_core
Reachable-Valid_example = Reachable-Valid two returning completed_core lived

abbrev second_binding : TaskRecordBinding
second_binding = record { record_index = 0; phase = true }

admit-Refuses_example :
    Refuses two
      (admit two (initial_core two) 7 Adapter.typed).0
      0
      (phase ((initial_core two).records 0).control)
unfolding admit admit_cleared admit_into first_index initial_core queue_push blank to_scratch
    set_queue_next queue_next initialize_queued state has_owner phase decode encode initial
admit-Refuses_example =
    admit-Refuses two (initial_core two) [] 7 Adapter.typed second_binding (initial_core-Inv two)
      refl
