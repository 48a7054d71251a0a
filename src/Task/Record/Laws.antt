-- ===== src/Task/Record/Laws.antt =====
-- The scratch field of TaskRecord reads back what was last written to it, in either reading.
use native.Mathlib.Nat.{mod-eq_of_lt}
use edp_threading.Base.{ℕ, ◌≤◌, ◌<◌, ◌%◌, ◌≡◌, ◌∙◌, Option, none, some, arith, ap}
use edp_threading.Topology.{Topology, LinkBelow}
use edp_threading.Task.Record.{
  TaskRecord, scratch_capacity, to_scratch, invalid_record, invalid_context, set_queue_next,
  queue_next, set_execution_context_index, current_execution_context_index,
}

scratch_capacity_bounds : (a b : ℕ) → (a ≤ scratch_capacity a b) × (b ≤ scratch_capacity a b)
scratch_capacity_bounds a b = ground arith

module _ (t : Topology) where
  record-invalid_fits : invalid_record t < t.index.modulus (scratch_capacity t.records t.contexts)
  record-invalid_fits = omega (
    arith,
    t.index.invalid-lt-modulus t.records,
    t.index.modulus_mono t.records _ (scratch_capacity_bounds t.records t.contexts).0,
  )

  context-invalid_fits : invalid_context t < t.index.modulus (scratch_capacity t.records t.contexts)
  context-invalid_fits = omega (
    arith,
    t.index.invalid-lt-modulus t.contexts,
    t.index.modulus_mono t.contexts _ (scratch_capacity_bounds t.records t.contexts).1,
  )

  to_scratch_small : (v : ℕ) → v ≤ invalid_record t → to_scratch t v ≡ v
  unfolding to_scratch
  to_scratch_small v h = mod-eq_of_lt (omega (arith, record-invalid_fits))

  to_scratch_context : (v : ℕ) → v ≤ invalid_context t → to_scratch t v ≡ v
  unfolding to_scratch
  to_scratch_context v h = mod-eq_of_lt (omega (arith, context-invalid_fits))

  -- QueueNext returns the link that SetQueueNext stored, when the link is below the record
  -- capacity or is the invalid index: the casts to the scratch type lose nothing.
  pub queue_next-set_queue_next :
      (r : TaskRecord) (next : Option ℕ)
      → LinkBelow t.records next
      → queue_next t (set_queue_next t r next) ≡ next
  unfolding queue_next set_queue_next
  queue_next-set_queue_next r none h = ground arith
  queue_next-set_queue_next r (some i) h =
      ground (
        arith,
        to_scratch_small i,
        to_scratch_small (invalid_record t),
        t.index.le-invalid t.records,
      )

  -- CurrentExecutionContextIndex returns the context that SetExecutionContextIndex stored,
  -- when it is at most the invalid context: the casts to the scratch type and back lose
  -- nothing.
  pub current-set_execution_context_index :
      (r : TaskRecord) (context : ℕ)
      → context ≤ invalid_context t
      → current_execution_context_index t (set_execution_context_index t r context) ≡ context
  unfolding current_execution_context_index set_execution_context_index
  current-set_execution_context_index r context h =
      ap (λ v. v % t.index.modulus t.contexts) (to_scratch_context context h)
      ∙ mod-eq_of_lt (omega (arith, t.index.invalid-lt-modulus t.contexts))
