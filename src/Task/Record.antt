-- ===== src/Task/Record.antt =====
-- src/threading/detail/TaskRecord.hpp, struct TaskRecord: a facility's record, whose one scratch
-- field is the queue link of a queued Task and the context index of a granted one.
pub mod Laws
use edp_threading.Base.{ℕ, ◌%◌, Bool, true, false, Option, none, some, ◌==◌, ltb, if◌then◌else◌}
use edp_threading.Topology.{Topology}
use edp_threading.Task.Control.{TaskControl, initial}
use edp_threading.Task.Payload.{Payload, Adapter}

pub record TaskRecord : Type 0 where
  pub payload : Payload
  pub scratch : ℕ
  pub control : TaskControl
  pub operations : Option Adapter

-- ScratchCapacity.
abbrev pub scratch_capacity : ℕ → ℕ → ℕ
scratch_capacity records contexts = if ltb contexts records then records else contexts

module _ (t : Topology) where
  -- `static_cast<ScratchIndex>`.
  unfoldable pub to_scratch : ℕ → ℕ
  to_scratch v = v % t.index.modulus (scratch_capacity t.records t.contexts)

  -- QueueIndex::InvalidValue, and InvalidExecutionContextIndex.
  abbrev pub invalid_record : ℕ
  invalid_record = t.index.invalid t.records

  abbrev pub invalid_context : ℕ
  invalid_context = t.index.invalid t.contexts

  -- A record as it is before its first use.
  unfoldable pub blank : TaskRecord
  unfolding to_scratch
  blank = record {
    payload = Payload.raw;
    scratch = to_scratch invalid_record;
    control = initial;
    operations = none;
  }

  -- `recordIndex.Value()`, of a link that may be the invalid index.
  abbrev pub link_value : Option ℕ → ℕ
  link_value none = invalid_record
  link_value (some i) = i

  unfoldable pub set_queue_next : TaskRecord → Option ℕ → TaskRecord
  unfolding to_scratch
  set_queue_next r next = record r { scratch = to_scratch (link_value next) }

  unfoldable pub queue_next : TaskRecord → Option ℕ
  unfolding to_scratch
  queue_next r = if r.scratch == to_scratch invalid_record then none else some r.scratch

  unfoldable pub set_execution_context_index : TaskRecord → ℕ → TaskRecord
  unfolding to_scratch
  set_execution_context_index r context = record r { scratch = to_scratch context }

  -- `static_cast<ExecutionContextIndex>` of the scratch field.
  unfoldable pub current_execution_context_index : TaskRecord → ℕ
  current_execution_context_index r = r.scratch % t.index.modulus t.contexts
