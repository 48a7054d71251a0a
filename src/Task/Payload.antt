-- ===== src/Task/Payload.antt =====
-- src/threading/detail/TaskPayloadAdapter.hpp: what a record's payload storage holds, and the
-- type-erased operations on it. The storage is a state, so that a use of it as something that it
-- does not hold (undefined behaviour in the source) is a value of its own, `corrupt`.
use edp_threading.Base.{ℕ, Option, none, some}
use edp_threading.Task.Control.{TaskInvocationOutcome}

-- Callables and results are known by a number each.
pub data Payload : Type 0 where
  raw : Payload
  callable : ℕ → Payload
  result : ℕ → Payload
  corrupt : Payload

-- The two specialisations of TaskPayloadAdapter, for a result type and for `void`. A record's
-- pointer to TaskPayloadOperations selects one of them.
pub data Adapter : Type 0 where
  typed untyped : Adapter

-- What a callable does when it is called: it returns a result, or it completes as cancelled.
abbrev pub Behaviour : Type 0
Behaviour = ℕ → Option ℕ

-- `new (record.Payload) StoredCallable(...)`. Constructing over a live object loses it.
abbrev pub construct_callable : ℕ → Payload → Payload
construct_callable f Payload.raw = Payload.callable f
construct_callable f _ = Payload.corrupt

-- Invoke: call the callable, destroy it, and construct the result where there is one.
abbrev pub invoke_result : Adapter → Option ℕ → Payload × TaskInvocationOutcome
invoke_result Adapter.typed none = (Payload.raw, TaskInvocationOutcome.cancelled)
invoke_result Adapter.typed (some r) = (Payload.result r, TaskInvocationOutcome.completed)
invoke_result Adapter.untyped none = (Payload.raw, TaskInvocationOutcome.cancelled)
invoke_result Adapter.untyped (some r) = (Payload.raw, TaskInvocationOutcome.completed)

abbrev pub invoke : Behaviour → Adapter → Payload → Payload × TaskInvocationOutcome
invoke run a (Payload.callable f) = invoke_result a (run f)
invoke run a _ = (Payload.corrupt, TaskInvocationOutcome.completed)

abbrev pub destroy_callable : Payload → Payload
destroy_callable (Payload.callable f) = Payload.raw
destroy_callable _ = Payload.corrupt

abbrev pub destroy_result : Adapter → Payload → Payload
destroy_result Adapter.typed (Payload.result r) = Payload.raw
destroy_result Adapter.typed _ = Payload.corrupt
destroy_result Adapter.untyped p = p

-- MoveResult gives the storage after the move, and what went to the destination.
abbrev pub move_result : Adapter → Payload → Payload × Option ℕ
move_result Adapter.typed (Payload.result r) = (Payload.raw, some r)
move_result Adapter.typed _ = (Payload.corrupt, none)
move_result Adapter.untyped p = (p, none)

-- A call through the record's pointer; through a null pointer it is undefined.
abbrev pub through : Option Adapter → (Adapter → Payload) → Payload
through none f = Payload.corrupt
through (some a) f = f a

-- The storage after a completed invocation, while its result has not been taken or destroyed.
abbrev pub HoldsOutcome : Adapter → TaskInvocationOutcome → Payload → Type 0
HoldsOutcome Adapter.typed TaskInvocationOutcome.completed (Payload.result r) = Unit {0}
HoldsOutcome Adapter.untyped TaskInvocationOutcome.completed Payload.raw = Unit {0}
HoldsOutcome Adapter.typed TaskInvocationOutcome.cancelled Payload.raw = Unit {0}
HoldsOutcome Adapter.untyped TaskInvocationOutcome.cancelled Payload.raw = Unit {0}
HoldsOutcome _ _ _ = ⊥
