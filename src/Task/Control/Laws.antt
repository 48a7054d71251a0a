-- ===== src/Task/Control/Laws.antt =====
-- What the operations of TaskControl do to the three fields of the byte.
use edp_threading.Base.{
  ℕ, ◌<◌, ◌≡◌, refl, Bool, true, false, not, ◌&&◌, ◌=?◌, arith, all_below, all_below_pass, ltb,
}
use edp_threading.Task.Control.{
  TaskOperationalState, TaskControl, encode, decode, same_state, state, has_owner, phase,
  initialize_queued, set_state, release_owner, initial,
}

-- The control value is a byte.
abbrev pub IsByte : TaskControl → Type 0
IsByte c = c.value < 256

pub same_state_eq : (s t : TaskOperationalState) → same_state s t ≡ true → s ≡ t
same_state_eq s t h = ground arith

pub same_state_refl : (s : TaskOperationalState) → same_state s s ≡ true
same_state_refl s = ground arith

pub =?_eq : (a b : Bool) → (a =? b) ≡ true → a ≡ b
=?_eq a b h = ground arith

-- The fields of `d` are the given ones, and it is a byte.
abbrev has_fields : TaskControl → TaskOperationalState → Bool → Bool → Bool
has_fields d s o p =
    same_state (state d) s && ((has_owner d =? o) && ((phase d =? p) && ltb d.value 256))

abbrev pub Fields : TaskControl → TaskOperationalState → Bool → Bool → Type 0
Fields d s o p = (state d ≡ s) × (has_owner d ≡ o) × (phase d ≡ p) × IsByte d

has_fields_sound :
    (d : TaskControl) (s : TaskOperationalState) (o p : Bool)
    → has_fields d s o p ≡ true
    → Fields d s o p
has_fields_sound d s o p h =
    ground (arith, same_state_eq (state d) s, =?_eq (has_owner d) o, =?_eq (phase d) p)

abbrev byte : ℕ → TaskControl
byte v = record { value = v }

set_state_table :
    (s : TaskOperationalState)
    → all_below 256 (λ v. has_fields (set_state (byte v) s) s (has_owner (byte v)) (phase (byte v)))
      ≡ true
unfolding all_below state has_owner phase set_state encode decode
set_state_table TaskOperationalState.queued = refl
set_state_table TaskOperationalState.running = refl
set_state_table TaskOperationalState.running_cancel_requested = refl
set_state_table TaskOperationalState.completed = refl
set_state_table TaskOperationalState.cancelled = refl
set_state_table TaskOperationalState.unnamed = refl

-- On every byte, SetState leaves a byte with the given state, and keeps the owner and Phase
-- bits.
pub set_state_lem :
    (c : TaskControl) (s : TaskOperationalState)
    → IsByte c
    → Fields (set_state c s) s (has_owner c) (phase c)
set_state_lem c s h = has_fields_sound _ s (has_owner c) (phase c) (
    all_below_pass 256
      (λ v. has_fields (set_state (byte v) s) s (has_owner (byte v)) (phase (byte v))) c.value
      (set_state_table s) h)

initialize_table :
    all_below 256 (λ v.
      has_fields
        (initialize_queued (byte v))
        TaskOperationalState.queued
        true
        (not (phase (byte v))))
    ≡ true
unfolding all_below state has_owner phase initialize_queued encode decode
initialize_table = refl

-- On every byte, InitializeQueued leaves a byte whose state is Queued, which is owned, and whose
-- Phase is toggled.
pub initialize_queued_lem :
    (c : TaskControl)
    → IsByte c
    → Fields (initialize_queued c) TaskOperationalState.queued true (not (phase c))
initialize_queued_lem c h = has_fields_sound _ _ true (not (phase c)) (
    all_below_pass 256
      (λ v.
        has_fields (initialize_queued (byte v)) TaskOperationalState.queued true
          (not (phase (byte v))))
      c.value initialize_table h)

release_table :
    all_below 256 (λ v. has_fields (release_owner (byte v)) (state (byte v)) false (phase (byte v)))
    ≡ true
unfolding all_below state has_owner phase release_owner decode
release_table = refl

-- On every byte, ReleaseOwner leaves a byte with no owner, and keeps the state and the Phase.
pub release_owner_lem :
    (c : TaskControl) → IsByte c → Fields (release_owner c) (state c) false (phase c)
release_owner_lem c h = has_fields_sound _ (state c) false (phase c) (
    all_below_pass 256
      (λ v. has_fields (release_owner (byte v)) (state (byte v)) false (phase (byte v))) c.value
      release_table h)

pub initial-Fields : Fields initial TaskOperationalState.queued false false
unfolding initial state has_owner phase decode
initial-Fields = (refl, refl, refl, omega arith)
