-- ===== src/Task/Control.antt =====
-- src/threading/detail/TaskRecord.hpp, class TaskControl: one byte packs the operational state,
-- the ownership interest and the incarnation Phase.
pub mod Laws
use edp_threading.Base.{ℕ, Bool, true, false, not, bit_and, bit_or, bit_xor, ◌==◌, if◌then◌else◌}

-- The enumeration has a fixed underlying type, so the three state bits can hold numbers that no
-- enumerator names: `unnamed`.
pub data TaskOperationalState : Type 0 where
  queued running running_cancel_requested completed cancelled unnamed : TaskOperationalState

pub data TaskInvocationOutcome : Type 0 where
  completed cancelled : TaskInvocationOutcome

pub data TaskControlTransitionResult : Type 0 where
  applied state_mismatch : TaskControlTransitionResult

pub record TaskControl : Type 0 where
  pub value : ℕ

abbrev pub state_mask : ℕ
state_mask = 0x07

abbrev pub owner_mask : ℕ
owner_mask = 0x08

abbrev pub phase_mask : ℕ
phase_mask = 0x10

-- `static_cast<std::uint8_t>(~mask)`.
abbrev pub complement : ℕ → ℕ
complement mask = bit_xor mask 0xFF

-- `static_cast<std::uint8_t>(state)`; the code writes named states only.
unfoldable pub encode : TaskOperationalState → ℕ
encode TaskOperationalState.queued = 0
encode TaskOperationalState.running = 1
encode TaskOperationalState.running_cancel_requested = 2
encode TaskOperationalState.completed = 3
encode TaskOperationalState.cancelled = 4
encode TaskOperationalState.unnamed = 5

-- `static_cast<TaskOperationalState>(bits)`.
unfoldable pub decode : ℕ → TaskOperationalState
decode bits =
    if bits == 0
    then TaskOperationalState.queued
    else if bits == 1
    then TaskOperationalState.running
    else if bits == 2
    then TaskOperationalState.running_cancel_requested
    else if bits == 3
    then TaskOperationalState.completed
    else if bits == 4
    then TaskOperationalState.cancelled
    else TaskOperationalState.unnamed

-- `==` on the enumeration.
abbrev pub same_state : TaskOperationalState → TaskOperationalState → Bool
same_state TaskOperationalState.queued TaskOperationalState.queued = true
same_state TaskOperationalState.running TaskOperationalState.running = true
same_state TaskOperationalState.running_cancel_requested
      TaskOperationalState.running_cancel_requested =
    true
same_state TaskOperationalState.completed TaskOperationalState.completed = true
same_state TaskOperationalState.cancelled TaskOperationalState.cancelled = true
same_state TaskOperationalState.unnamed TaskOperationalState.unnamed = true
same_state _ _ = false

unfoldable pub initial : TaskControl
initial = record { value = 0 }

unfoldable pub state : TaskControl → TaskOperationalState
state c = decode (bit_and c.value state_mask)

unfoldable pub has_owner : TaskControl → Bool
has_owner c = not (bit_and c.value owner_mask == 0)

unfoldable pub phase : TaskControl → Bool
phase c = not (bit_and c.value phase_mask == 0)

unfoldable pub is_cancellation_requested : TaskControl → Bool
is_cancellation_requested c = same_state (state c) TaskOperationalState.running_cancel_requested

unfoldable pub initialize_queued : TaskControl → TaskControl
initialize_queued c = record {
  value =
      bit_or (bit_or (bit_and (bit_xor c.value phase_mask) phase_mask) owner_mask)
        (encode TaskOperationalState.queued);
}

unfoldable pub set_state : TaskControl → TaskOperationalState → TaskControl
set_state c s = record { value = bit_or (bit_and c.value (complement state_mask)) (encode s) }

unfoldable pub compare_exchange_state :
    TaskControl
    → TaskOperationalState
    → TaskOperationalState
    → TaskControl × TaskControlTransitionResult
compare_exchange_state c expected desired =
    if same_state (state c) expected
    then (set_state c desired, TaskControlTransitionResult.applied)
    else (c, TaskControlTransitionResult.state_mismatch)

unfoldable pub release_owner : TaskControl → TaskControl
release_owner c = record { value = bit_and c.value (complement owner_mask) }
