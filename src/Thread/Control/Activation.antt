-- ===== src/Thread/Control/Activation.antt =====
-- A Dedicated Thread's control byte implements a state and a Phase.
use edp_threading.Base.{
  ℕ, ◌<◌, ◌≡◌, ◌∙◌, ap, refl, Bool, true, false, not, ◌&&◌, ◌=?◌, arith, all_below, all_below_pass,
  ltb, if◌then◌else◌,
}
use edp_threading.Thread.Control.{
  DedicatedThreadOperationalState, DedicatedThreadControlStartResult,
  DedicatedThreadControlStopRequestResult, DedicatedThreadControlPublicationResult,
  DedicatedThreadControl, encode, decode, state, phase, is_running, try_start, try_request_stop,
  try_publish_stopped,
}

-- What a control byte stands for.
pub record Activation : Type 0 where
  pub at : DedicatedThreadOperationalState
  pub phase_bit : Bool

abbrev pub activation : DedicatedThreadControl → Activation
activation c = record { at = state c; phase_bit = phase c }

-- The three operations on that view.
pub data Action : Type 0 where
  start : Bool → Action
  request_stop : Action
  publish_stopped : Bool → Action

pub data Answer : Type 0 where
  start_answer : Bool → DedicatedThreadControlStartResult → Answer
  stop_answer : DedicatedThreadControlStopRequestResult → Answer
  publication_answer : DedicatedThreadControlPublicationResult → Answer

abbrev pub act : Activation → Action → Activation × Answer
act a (Action.start variable) =
    if is_running a.at
    then (a, Answer.start_answer variable DedicatedThreadControlStartResult.already_running)
    else (
      record { at = DedicatedThreadOperationalState.running; phase_bit = not a.phase_bit },
      Answer.start_answer (not a.phase_bit) DedicatedThreadControlStartResult.started,
    )
act a Action.request_stop = elim (a.at) [
  | DedicatedThreadOperationalState.running ↦ (
    record a { at = DedicatedThreadOperationalState.running_stop_requested },
    Answer.stop_answer DedicatedThreadControlStopRequestResult.accepted,
  )
  | _ ↦ (a, Answer.stop_answer DedicatedThreadControlStopRequestResult.not_running)
]
act a (Action.publish_stopped p) =
    if not (a.phase_bit =? p)
    then (a, Answer.publication_answer DedicatedThreadControlPublicationResult.phase_mismatch)
    else if is_running a.at
    then (
      record a { at = DedicatedThreadOperationalState.stopped },
      Answer.publication_answer DedicatedThreadControlPublicationResult.published,
    )
    else (a, Answer.publication_answer DedicatedThreadControlPublicationResult.not_running)

-- The code's operations.
abbrev pub operate : DedicatedThreadControl → Action → DedicatedThreadControl × Answer
operate c (Action.start variable) =
    let (d, p, r) = try_start c variable in (d, Answer.start_answer p r)
operate c Action.request_stop = let (d, r) = try_request_stop c in (d, Answer.stop_answer r)
operate c (Action.publish_stopped p) =
    let (d, r) = try_publish_stopped c p in (d, Answer.publication_answer r)

abbrev same_at : DedicatedThreadOperationalState → DedicatedThreadOperationalState → Bool
same_at DedicatedThreadOperationalState.never_started
      DedicatedThreadOperationalState.never_started =
    true
same_at DedicatedThreadOperationalState.running DedicatedThreadOperationalState.running = true
same_at DedicatedThreadOperationalState.running_stop_requested
      DedicatedThreadOperationalState.running_stop_requested =
    true
same_at DedicatedThreadOperationalState.stopped DedicatedThreadOperationalState.stopped = true
same_at _ _ = false

-- The bits that a transition to `s` writes are read back as `s` and `p`.
abbrev reads : ℕ → DedicatedThreadOperationalState → Bool → Bool
reads v s p =
    same_at (state (record { value = v })) s && ((phase (record { value = v }) =? p) && ltb v 256)

reads_sound :
    (v : ℕ) (s : DedicatedThreadOperationalState) (p : Bool)
    → reads v s p ≡ true
    → (state (record { value = v }) ≡ s) × (phase (record { value = v }) ≡ p) × (v < 256)
reads_sound v s p h = ground arith

abbrev byte : ℕ → DedicatedThreadControl
byte v = record { value = v }

-- The byte `v` simulates one action on the view.
abbrev same_answer : Answer → Answer → Bool
same_answer (Answer.start_answer p DedicatedThreadControlStartResult.started)
      (Answer.start_answer q DedicatedThreadControlStartResult.started) =
    p =? q
same_answer (Answer.start_answer p DedicatedThreadControlStartResult.already_running)
      (Answer.start_answer q DedicatedThreadControlStartResult.already_running) =
    p =? q
same_answer (Answer.stop_answer DedicatedThreadControlStopRequestResult.accepted)
      (Answer.stop_answer DedicatedThreadControlStopRequestResult.accepted) =
    true
same_answer (Answer.stop_answer DedicatedThreadControlStopRequestResult.not_running)
      (Answer.stop_answer DedicatedThreadControlStopRequestResult.not_running) =
    true
same_answer (Answer.publication_answer DedicatedThreadControlPublicationResult.published)
      (Answer.publication_answer DedicatedThreadControlPublicationResult.published) =
    true
same_answer (Answer.publication_answer DedicatedThreadControlPublicationResult.phase_mismatch)
      (Answer.publication_answer DedicatedThreadControlPublicationResult.phase_mismatch) =
    true
same_answer (Answer.publication_answer DedicatedThreadControlPublicationResult.not_running)
      (Answer.publication_answer DedicatedThreadControlPublicationResult.not_running) =
    true
same_answer _ _ = false

same_answer_sound : (a b : Answer) → same_answer a b ≡ true → a ≡ b
same_answer_sound a b h = ground arith

abbrev simulates : Action → ℕ → Bool
simulates action v =
    reads (operate (byte v) action).0.value (act (activation (byte v)) action).0.at
      (act (activation (byte v)) action).0.phase_bit
    && same_answer (operate (byte v) action).1 (act (activation (byte v)) action).1

simulates_table : (action : Action) → all_below 256 (simulates action) ≡ true
unfolding all_below state phase try_start try_request_stop try_publish_stopped encode decode
simulates_table (Action.start true) = refl
simulates_table (Action.start false) = refl
simulates_table Action.request_stop = refl
simulates_table (Action.publish_stopped true) = refl
simulates_table (Action.publish_stopped false) = refl

-- The control byte of a Dedicated Thread implements a record of a state and a Phase: on every
-- byte, TryStart, TryRequestStop and TryPublishStopped leave a byte, do to the state and the
-- Phase what the operation on the record does, and answer the same.
pub operate-act :
    (c : DedicatedThreadControl) (action : Action)
    → c.value < 256
    → ((operate c action).0.value < 256)
      × (activation (operate c action).0 ≡ (act (activation c) action).0)
      × ((operate c action).1 ≡ (act (activation c) action).1)
operate-act c action h = ground (
  arith,
  all_below_pass 256 (simulates action) c.value (simulates_table action) h,
  same_answer_sound (operate c action).1 (act (activation c) action).1,
  reads_sound (operate c action).0.value (act (activation c) action).0.at
      (act (activation c) action).0.phase_bit,
)

started_phase :
    (c : DedicatedThreadControl) (variable : Bool)
    → c.value < 256
    → is_running (state c) ≡ false
    → phase (try_start c variable).0 ≡ not (phase c)
started_phase c variable h idle =
    let same = operate-act c (Action.start variable) h in
    ap (λ a. a.phase_bit) same.1 ∙ rw idle refl

refused :
    (c : DedicatedThreadControl) (p : Bool)
    → phase c ≡ not p
    → try_publish_stopped c p ≡ (c, DedicatedThreadControlPublicationResult.phase_mismatch)
unfolding try_publish_stopped phase
refused c p h = ground arith

-- An activation that returns after its Dedicated Thread was started again cannot publish its
-- stop: from a byte that is not running, after TryStart, TryPublishStopped with the former Phase
-- answers PhaseMismatch and changes nothing.
pub try_publish_stopped_stale :
    (c : DedicatedThreadControl) (variable : Bool)
    → c.value < 256
    → is_running (state c) ≡ false
    → try_publish_stopped (try_start c variable).0 (phase c)
      ≡ ((try_start c variable).0, DedicatedThreadControlPublicationResult.phase_mismatch)
try_publish_stopped_stale c variable h idle =
    refused (try_start c variable).0 (phase c) (started_phase c variable h idle)
