-- ===== src/Thread/Control.antt =====
-- src/threading/detail/DedicatedThreadControl.hpp: one byte packs the operational state and the
-- activation Phase of a Dedicated Thread.
pub mod Activation
use edp_threading.Base.{
  ℕ, Bool, true, false, not, bit_and, bit_or, bit_xor, ◌==◌, ◌=?◌, if◌then◌else◌,
}

pub data DedicatedThreadOperationalState : Type 0 where
  never_started running running_stop_requested stopped : DedicatedThreadOperationalState

pub data DedicatedThreadControlStartResult : Type 0 where
  started already_running : DedicatedThreadControlStartResult

pub data DedicatedThreadControlStopRequestResult : Type 0 where
  accepted not_running : DedicatedThreadControlStopRequestResult

pub data DedicatedThreadControlPublicationResult : Type 0 where
  published phase_mismatch not_running : DedicatedThreadControlPublicationResult

pub record DedicatedThreadControl : Type 0 where
  pub value : ℕ

abbrev pub state_mask : ℕ
state_mask = 0x03

abbrev pub phase_mask : ℕ
phase_mask = 0x04

-- `static_cast<std::uint8_t>(state)`.
unfoldable pub encode : DedicatedThreadOperationalState → ℕ
encode DedicatedThreadOperationalState.never_started = 0
encode DedicatedThreadOperationalState.running = 1
encode DedicatedThreadOperationalState.running_stop_requested = 2
encode DedicatedThreadOperationalState.stopped = 3

-- `static_cast<DedicatedThreadOperationalState>(bits)`, of two bits.
unfoldable pub decode : ℕ → DedicatedThreadOperationalState
decode bits =
    if bits == 0
    then DedicatedThreadOperationalState.never_started
    else if bits == 1
    then DedicatedThreadOperationalState.running
    else if bits == 2
    then DedicatedThreadOperationalState.running_stop_requested
    else DedicatedThreadOperationalState.stopped

unfoldable pub initial : DedicatedThreadControl
unfolding encode
initial = record { value = encode DedicatedThreadOperationalState.never_started }

unfoldable pub state : DedicatedThreadControl → DedicatedThreadOperationalState
state c = decode (bit_and c.value state_mask)

unfoldable pub phase : DedicatedThreadControl → Bool
phase c = not (bit_and c.value phase_mask == 0)

unfoldable pub is_stop_requested : DedicatedThreadControl → Bool
is_stop_requested c = elim (state c) [
  | DedicatedThreadOperationalState.running_stop_requested ↦ true
  | _ ↦ false
]

-- The activation that is running, or asked to stop, has not returned yet.
abbrev pub is_running : DedicatedThreadOperationalState → Bool
is_running DedicatedThreadOperationalState.running = true
is_running DedicatedThreadOperationalState.running_stop_requested = true
is_running _ = false

-- `activation_phase` is the caller's variable, which a start writes.
unfoldable pub try_start :
    DedicatedThreadControl
    → Bool
    → DedicatedThreadControl × Bool × DedicatedThreadControlStartResult
try_start c activation_phase =
    if is_running (state c)
    then (c, activation_phase, DedicatedThreadControlStartResult.already_running)
    else (let next_phase = bit_and (bit_xor c.value phase_mask) phase_mask in
        (
          record { value = bit_or next_phase (encode DedicatedThreadOperationalState.running) },
          not (next_phase == 0),
          DedicatedThreadControlStartResult.started,
        ))

unfoldable pub try_request_stop :
    DedicatedThreadControl → DedicatedThreadControl × DedicatedThreadControlStopRequestResult
try_request_stop c = elim (state c) [
  | DedicatedThreadOperationalState.running ↦ (
    record {
      value =
          bit_or (bit_and c.value phase_mask)
            (encode DedicatedThreadOperationalState.running_stop_requested);
    },
    DedicatedThreadControlStopRequestResult.accepted,
  )
  | _ ↦ (c, DedicatedThreadControlStopRequestResult.not_running)
]

unfoldable pub try_publish_stopped :
    DedicatedThreadControl → Bool → DedicatedThreadControl × DedicatedThreadControlPublicationResult
try_publish_stopped c activation_phase =
    if not (not (bit_and c.value phase_mask == 0) =? activation_phase)
    then (c, DedicatedThreadControlPublicationResult.phase_mismatch)
    else if not (is_running (state c))
    then (c, DedicatedThreadControlPublicationResult.not_running)
    else (
      record {
        value =
            bit_or (bit_and c.value phase_mask) (encode DedicatedThreadOperationalState.stopped);
      },
      DedicatedThreadControlPublicationResult.published,
    )
