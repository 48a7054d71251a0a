-- ===== src/Facility/Invariant.antt =====
-- When the core of a Task facility is well formed: every record's payload, ownership and queue
-- membership fit its availability bit and its operational state.
use edp_threading.Base.{
  ℕ, ◌<◌, ◌≡◌, refl, Bool, true, false, Option, none, some, List, elem, IsDistinct,
}
use edp_threading.Topology.{Topology}
use edp_threading.Task.Control.{TaskOperationalState, TaskInvocationOutcome, state, has_owner}
use edp_threading.Task.Control.Laws.{IsByte}
use edp_threading.Task.Payload.{Payload, Adapter, HoldsOutcome, destroy_result, through}
use edp_threading.Task.Record.{TaskRecord}
use edp_threading.Facility.Core.{TaskFacilityCore, links}

abbrev pub HasCallable : Payload → Type 0
HasCallable (Payload.callable f) = Unit {0}
HasCallable _ = ⊥

abbrev pub NotCorrupt : Payload → Type 0
NotCorrupt Payload.corrupt = ⊥
NotCorrupt _ = Unit {0}

-- A completed record keeps its result for its owner only.
abbrev pub KeepsResult : Bool → Adapter → Payload → Type 0
KeepsResult true a p = HoldsOutcome a TaskInvocationOutcome.completed p
KeepsResult false a p = p ≡ Payload.raw

-- An available record is not running.
abbrev pub IsIdle : TaskOperationalState → Type 0
IsIdle TaskOperationalState.running = ⊥
IsIdle TaskOperationalState.running_cancel_requested = ⊥
IsIdle _ = Unit {0}

-- An allocated record in each state, by queue membership, ownership, payload and operations.
abbrev pub AllocatedOk : Bool → TaskOperationalState → Bool → Payload → Option Adapter → Type 0
AllocatedOk queued s owner p none = ⊥
AllocatedOk queued TaskOperationalState.queued owner p (some a) =
    (queued ≡ true) × (owner ≡ true) × HasCallable p
AllocatedOk queued TaskOperationalState.running owner p (some a) = (queued ≡ false) × NotCorrupt p
AllocatedOk queued TaskOperationalState.running_cancel_requested owner p (some a) =
    (queued ≡ false) × NotCorrupt p
AllocatedOk queued TaskOperationalState.completed owner p (some a) =
    (queued ≡ false) × KeepsResult owner a p
AllocatedOk queued TaskOperationalState.cancelled owner p (some a) =
    (queued ≡ false) × (p ≡ Payload.raw)
AllocatedOk queued TaskOperationalState.unnamed owner p (some a) = ⊥

abbrev pub RecordOk : Bool → Bool → TaskOperationalState → Bool → Payload → Option Adapter → Type 0
RecordOk true queued s owner p ops =
    (queued ≡ false) × (owner ≡ false) × (p ≡ Payload.raw) × IsIdle s
RecordOk false queued s owner p ops = AllocatedOk queued s owner p ops

abbrev pub IsRecordOk : Bool → Bool → TaskRecord → Type 0
IsRecordOk available queued r =
    RecordOk available queued (state r.control) (has_owner r.control) r.payload r.operations
    × IsByte r.control

-- The core is well formed, and its queue contains `q`, oldest first.
pub record Inv (t : Topology) (c : TaskFacilityCore t) (q : List ℕ) : Type 0 where
  pub holds : t.queue.Holds c.ends (links t c.records) q
  pub distinct : IsDistinct q
  pub members : (i : ℕ) → elem i q ≡ true → i < t.records
  pub ok :
      (i : ℕ)
      → i < t.records
      → IsRecordOk (t.availability.is_set c.availability i) (elem i q) (c.records i)

-- What a record in the queue is.
abbrev pub IsQueued : Bool → TaskOperationalState → Bool → Payload → Option Adapter → Type 0
IsQueued available s owner p ops =
    (available ≡ false)
    × (s ≡ TaskOperationalState.queued)
    × (owner ≡ true)
    × ((f : ℕ) × (p ≡ Payload.callable f))
    × ((a : Adapter) × (ops ≡ some a))

pub RecordOk-IsQueued :
    (available : Bool) (s : TaskOperationalState) (owner : Bool) (p : Payload)
    (ops : Option Adapter)
    → RecordOk available true s owner p ops
    → IsQueued available s owner p ops
RecordOk-IsQueued true s owner p ops h = absurd (cc)
RecordOk-IsQueued false s owner p none h = absurd h
RecordOk-IsQueued false TaskOperationalState.queued owner (Payload.callable f) (some a) h =
    (refl, refl, h.1, (f, refl), (a, refl))
RecordOk-IsQueued false TaskOperationalState.queued owner Payload.raw (some a) h = absurd h.2
RecordOk-IsQueued false TaskOperationalState.queued owner (Payload.result r) (some a) h = absurd h.2
RecordOk-IsQueued false TaskOperationalState.queued owner Payload.corrupt (some a) h = absurd h.2
RecordOk-IsQueued false TaskOperationalState.running owner p (some a) h = absurd (cc)
RecordOk-IsQueued false TaskOperationalState.running_cancel_requested owner p (some a) h =
    absurd (cc)
RecordOk-IsQueued false TaskOperationalState.completed owner p (some a) h = absurd (cc)
RecordOk-IsQueued false TaskOperationalState.cancelled owner p (some a) h = absurd (cc)
RecordOk-IsQueued false TaskOperationalState.unnamed owner p (some a) h = absurd h

-- A queued record of an allocated slot stands in the queue.
pub RecordOk-queued_state :
    (queued : Bool) (owner : Bool) (p : Payload) (ops : Option Adapter)
    → RecordOk false queued TaskOperationalState.queued owner p ops
    → queued ≡ true
RecordOk-queued_state queued owner p none h = absurd h
RecordOk-queued_state queued owner p (some a) h = h.0

-- Neither the owner nor a request matters to a running record.
pub AllocatedOk-requested :
    (queued owner owner' : Bool) (p : Payload) (ops : Option Adapter)
    → AllocatedOk queued TaskOperationalState.running owner p ops
    → AllocatedOk queued TaskOperationalState.running_cancel_requested owner' p ops
AllocatedOk-requested queued owner owner' p none h = h
AllocatedOk-requested queued owner owner' p (some a) h = h

pub AllocatedOk-released :
    (queued : Bool) (p : Payload) (ops : Option Adapter)
    → (AllocatedOk queued TaskOperationalState.running true p ops
        → AllocatedOk queued TaskOperationalState.running false p ops)
      × (AllocatedOk queued TaskOperationalState.running_cancel_requested true p ops
          → AllocatedOk queued TaskOperationalState.running_cancel_requested false p ops)
      × (AllocatedOk queued TaskOperationalState.cancelled true p ops
          → AllocatedOk queued TaskOperationalState.cancelled false p ops)
AllocatedOk-released queued p none = (λ h. h, λ h. h, λ h. h)
AllocatedOk-released queued p (some a) = (λ h. h, λ h. h, λ h. h)

-- The result of a completed and owned record, destroyed.
pub AllocatedOk-destroyed :
    (queued : Bool) (p : Payload) (ops : Option Adapter)
    → AllocatedOk queued TaskOperationalState.completed true p ops
    → (through ops (λ a. destroy_result a p) ≡ Payload.raw)
      × AllocatedOk queued TaskOperationalState.completed false Payload.raw ops
AllocatedOk-destroyed queued p none h = absurd h
AllocatedOk-destroyed queued (Payload.result r) (some Adapter.typed) h = (refl, (h.0, refl))
AllocatedOk-destroyed queued Payload.raw (some Adapter.typed) h = absurd h.1
AllocatedOk-destroyed queued (Payload.callable f) (some Adapter.typed) h = absurd h.1
AllocatedOk-destroyed queued Payload.corrupt (some Adapter.typed) h = absurd h.1
AllocatedOk-destroyed queued Payload.raw (some Adapter.untyped) h = (refl, (h.0, refl))
AllocatedOk-destroyed queued (Payload.result r) (some Adapter.untyped) h = absurd h.1
AllocatedOk-destroyed queued (Payload.callable f) (some Adapter.untyped) h = absurd h.1
AllocatedOk-destroyed queued Payload.corrupt (some Adapter.untyped) h = absurd h.1

-- An owned record is allocated.
pub RecordOk-owned :
    (available queued : Bool) (s : TaskOperationalState) (p : Payload) (ops : Option Adapter)
    → RecordOk available queued s true p ops
    → available ≡ false
RecordOk-owned true queued s p ops h = absurd (cc)
RecordOk-owned false queued s p ops h = refl

-- No allocated record holds a number that names no state.
pub AllocatedOk-unnamed :
    (queued owner : Bool) (p : Payload) (ops : Option Adapter)
    → ¬ AllocatedOk queued TaskOperationalState.unnamed owner p ops
AllocatedOk-unnamed queued owner p none h = h
AllocatedOk-unnamed queued owner p (some a) h = h

pub AllocatedOk-cancelled :
    (queued owner : Bool) (p : Payload) (ops : Option Adapter)
    → AllocatedOk queued TaskOperationalState.cancelled owner p ops
    → p ≡ Payload.raw
AllocatedOk-cancelled queued owner p none h = absurd h
AllocatedOk-cancelled queued owner p (some a) h = h.1

abbrev pub IsExecuting : TaskOperationalState → Type 0
IsExecuting TaskOperationalState.running = Unit {0}
IsExecuting TaskOperationalState.running_cancel_requested = Unit {0}
IsExecuting _ = ⊥

pub AllocatedOk-executing :
    (queued owner : Bool) (s : TaskOperationalState) (p : Payload) (ops : Option Adapter)
    → IsExecuting s
    → AllocatedOk queued s owner p ops
    → queued ≡ false
AllocatedOk-executing queued owner s p none x h = absurd h
AllocatedOk-executing queued owner TaskOperationalState.running p (some a) x h = h.0
AllocatedOk-executing queued owner TaskOperationalState.running_cancel_requested p (some a) x h =
    h.0
AllocatedOk-executing queued owner TaskOperationalState.queued p (some a) x h = absurd x
AllocatedOk-executing queued owner TaskOperationalState.completed p (some a) x h = absurd x
AllocatedOk-executing queued owner TaskOperationalState.cancelled p (some a) x h = absurd x
AllocatedOk-executing queued owner TaskOperationalState.unnamed p (some a) x h = absurd x

-- A running record keeps its place with any payload that is not corrupt.
pub AllocatedOk-payload :
    (queued owner : Bool) (s : TaskOperationalState) (p p' : Payload) (ops : Option Adapter)
    → IsExecuting s
    → NotCorrupt p'
    → AllocatedOk queued s owner p ops
    → AllocatedOk queued s owner p' ops
AllocatedOk-payload queued owner s p p' none x n h = absurd h
AllocatedOk-payload queued owner TaskOperationalState.running p p' (some a) x n h = (h.0, n)
AllocatedOk-payload queued owner TaskOperationalState.running_cancel_requested p p' (some a) x n h =
    (h.0, n)
AllocatedOk-payload queued owner TaskOperationalState.queued p p' (some a) x n h = absurd x
AllocatedOk-payload queued owner TaskOperationalState.completed p p' (some a) x n h = absurd x
AllocatedOk-payload queued owner TaskOperationalState.cancelled p p' (some a) x n h = absurd x
AllocatedOk-payload queued owner TaskOperationalState.unnamed p p' (some a) x n h = absurd x

-- An invocation that completes leaves what a completed and owned record holds.
pub AllocatedOk-completed :
    (queued : Bool) (p : Payload) (a : Adapter)
    → queued ≡ false
    → HoldsOutcome a TaskInvocationOutcome.completed p
    → AllocatedOk queued TaskOperationalState.completed true p (some a)
AllocatedOk-completed queued p a e h = (e, h)

pub HoldsOutcome-cancelled :
    (a : Adapter) (p : Payload) → HoldsOutcome a TaskInvocationOutcome.cancelled p → p ≡ Payload.raw
HoldsOutcome-cancelled Adapter.typed Payload.raw h = refl
HoldsOutcome-cancelled Adapter.untyped Payload.raw h = refl
HoldsOutcome-cancelled Adapter.typed (Payload.callable f) h = absurd h
HoldsOutcome-cancelled Adapter.untyped (Payload.callable f) h = absurd h
HoldsOutcome-cancelled Adapter.typed (Payload.result r) h = absurd h
HoldsOutcome-cancelled Adapter.untyped (Payload.result r) h = absurd h
HoldsOutcome-cancelled Adapter.typed Payload.corrupt h = absurd h
HoldsOutcome-cancelled Adapter.untyped Payload.corrupt h = absurd h
