-- ===== src/Facility/Core/State.antt =====
-- src/threading/detail/TaskFacilityCore.hpp: the state of a facility's core, its result types, and
-- the queue operations over the record array, which is a function of the index.
use edp_threading.Base.{ℕ, Bool, ◌&&◌, List, [], ◌∷◌, ◌=?◌, ltb, update}
use edp_threading.Topology.{Topology, Links, Write}
use edp_threading.Types.{TaskCancelResult}
use edp_threading.Task.Control.{phase}
use edp_threading.Task.Record.{TaskRecord, blank, set_queue_next, queue_next}

pub data TaskReleaseEffect : Type 0 where
  ownership_released terminal_published : TaskReleaseEffect

pub data TaskReclaimResult : Type 0 where
  reclaimed not_eligible provider_failure : TaskReclaimResult

-- TaskRecordBinding: a record index and its incarnation Phase.
pub record TaskRecordBinding : Type 0 where
  pub record_index : ℕ
  pub phase : Bool

-- TaskAdmissionCoreResult: a status, with a binding exactly when it is Admitted.
pub data TaskAdmissionCoreResult : Type 0 where
  capacity_unavailable : TaskAdmissionCoreResult
  admitted : TaskRecordBinding → TaskAdmissionCoreResult

pub data TaskWorkerClaimResult : Type 0 where
  queue_empty : TaskWorkerClaimResult
  claimed : TaskRecordBinding → TaskWorkerClaimResult

pub record TaskCancellationCoreResult : Type 0 where
  pub result : TaskCancelResult
  pub terminal_published : Bool

pub record TaskFacilityCore (t : Topology) : Type 0 where
  pub records : ℕ → TaskRecord
  pub availability : t.availability.Members
  pub ends : t.queue.Ends

module _ (t : Topology) where
  -- The calls of SetQueueNext that a queue operation makes.
  abbrev pub write_records : (ℕ → TaskRecord) → List Write → ℕ → TaskRecord
  write_records r [] = r
  write_records r ((i, next) ∷ ws) = write_records (update r i (set_queue_next t (r i) next)) ws

  abbrev pub links : (ℕ → TaskRecord) → Links
  links r i = queue_next t (r i)

  abbrev pub set_record : TaskFacilityCore t → ℕ → TaskRecord → TaskFacilityCore t
  set_record c i r = record c { records = update c.records i r }

  unfoldable pub queue_push : TaskFacilityCore t → ℕ → TaskFacilityCore t
  queue_push c i =
      let (e, ws) = t.queue.push c.ends (links c.records) i in
      record c { records = write_records c.records ws; ends = e }

  unfoldable pub queue_remove : TaskFacilityCore t → ℕ → TaskFacilityCore t
  queue_remove c i =
      let (e, ws) = t.queue.remove c.ends (links c.records) i in
      record c { records = write_records c.records ws; ends = e }

  -- The constructor: every record is available.
  unfoldable pub initial_core : TaskFacilityCore t
  initial_core = record {
    records = λ i. blank t;
    availability = t.availability.set_all t.availability.fresh;
    ends = t.queue.fresh;
  }

  unfoldable pub is_current_incarnation : TaskFacilityCore t → ℕ → Bool → Bool
  is_current_incarnation c i p = ltb i t.records && (phase (c.records i).control =? p)

  unfoldable pub has_record_capacity : TaskFacilityCore t → Bool
  has_record_capacity c = t.availability.is_any_set c.availability

  abbrev pub binding : TaskFacilityCore t → ℕ → TaskRecordBinding
  binding c i = record { record_index = i; phase = phase (c.records i).control }
