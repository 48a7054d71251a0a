-- ===== src/Examples/Controls.antt =====
-- The theorems on the control bytes, the scratch field and the Worker leases, applied.
use edp_threading.Base.{◌<◌, ◌≡◌, ◌==◌, refl, true, false, some, arith}
use edp_threading.Task.Control.{TaskControl}
use edp_threading.Task.Record.{blank, queue_next, set_queue_next}
use edp_threading.Task.Record.Laws.{queue_next-set_queue_next}
use edp_threading.Worker.{Workers, try_claim_available}
use edp_threading.Worker.Lease.{ClaimsLowest, try_claim_available_lem}
use edp_threading.Thread.Control.{
  DedicatedThreadControl, DedicatedThreadControlPublicationResult, try_start, try_publish_stopped,
  state as thread_state, phase as thread_phase, decode as decode_thread,
}
use edp_threading.Thread.Control.Activation.{
  Action, activation, act, operate, operate-act, try_publish_stopped_stale,
}
use edp_threading.Examples.Topologies.{two}

-- Completed, owned, in the second Phase.
abbrev owned_byte : TaskControl
owned_byte = record { value = 27 }

queue_next-set_queue_next_example :
    queue_next two (set_queue_next two (blank two) (some 1)) ≡ some 1
queue_next-set_queue_next_example = queue_next-set_queue_next two (blank two) (some 1) (omega arith)

-- Only the second Worker is free.
abbrev second_free : Workers two
second_free i = i == 1

try_claim_available_lem_example : ClaimsLowest two second_free (try_claim_available two second_free)
try_claim_available_lem_example = try_claim_available_lem two second_free

-- Stop requested, in the second Phase.
abbrev stopping : DedicatedThreadControl
stopping = record { value = 6 }

operate-act_example :
    ((operate stopping (Action.publish_stopped true)).0.value < 256)
    × (activation (operate stopping (Action.publish_stopped true)).0
        ≡ (act (activation stopping) (Action.publish_stopped true)).0)
    × ((operate stopping (Action.publish_stopped true)).1
        ≡ (act (activation stopping) (Action.publish_stopped true)).1)
operate-act_example = operate-act stopping (Action.publish_stopped true) (omega arith)

-- Stopped, in the second Phase.
abbrev at_rest : DedicatedThreadControl
at_rest = record { value = 7 }

try_publish_stopped_stale_example :
    try_publish_stopped (try_start at_rest false).0 (thread_phase at_rest)
    ≡ ((try_start at_rest false).0, DedicatedThreadControlPublicationResult.phase_mismatch)
unfolding thread_state decode_thread
try_publish_stopped_stale_example = try_publish_stopped_stale at_rest false (omega arith) refl
