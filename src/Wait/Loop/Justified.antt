-- ===== src/Wait/Loop/Justified.antt =====
-- The verdict of a wait is decided under the lock, for a reason that the wait itself has met.
pub mod Run
use edp_threading.Base.{
  ℕ, ◌≡◌, ◌⊎◌, refl, Bool, true, false, none, some, if◌then◌else◌, inl, inr, Bool-cases,
  Option-cases,
}
use edp_threading.Wait.Budget.{MonotonicWaitBudget, WaitTimeout, is_no_wait}
use edp_threading.Wait.Loop.{
  SignalWaitResult, Environment, Target, Verdict, Step, is_provider_failure, is_timed_out,
  time_left, conclude, abandon, enter, enrolled,
}

module _ {S : Type 0} (env : Environment S) (target : Target S) (context : ℕ)
    (budget : MonotonicWaitBudget) where
  abbrev pub IsLate : S → Type 0
  IsLate u = is_no_wait (time_left env target context budget u) ≡ true

  abbrev pub IsEarly : S → Type 0
  IsEarly u = is_no_wait (time_left env target context budget u) ≡ false

  -- The lock taken from a state, and whether it is granted.
  abbrev pub locked_from : S → S
  locked_from u = (env.acquire u).0

  abbrev pub IsGranted : S → Type 0
  IsGranted u = (env.acquire u).1 ≡ true

  -- The wait of a turn from a state, with the time that is left there.
  abbrev pub woken_from : S → S × SignalWaitResult
  woken_from s = env.wait context (time_left env target context budget s) s

  -- The state under the lock that a turn then finds.
  abbrev pub found_from : S → S
  found_from s = locked_from (woken_from s).0

  -- The look for an interruption, after the release of the lock and under it.
  abbrev pub looked_from : S → S × Bool
  looked_from s = env.is_interrupted context (env.release (found_from s))

  abbrev pub looked_under_lock : S → S × Bool
  looked_under_lock s = env.is_interrupted context (found_from s)

  -- A turn that waits, and does not find the predicate under the lock.
  abbrev pub Misses : S → Type 0
  Misses s = IsEarly s × IsGranted (woken_from s).0 × (target.holds (found_from s) ≡ false)

  module _ (start : S) where
    -- The states at the beginning of a turn, with the slot in which the wait is registered.
    pub data Waiting : ℕ → S → Type 0 where
      enrolled_at :
          (slot : ℕ)
          → IsGranted start
          → target.holds (locked_from start) ≡ false
          → (target.enrol (locked_from start)).1 ≡ some slot
          → target.holds (target.enrol (locked_from start)).0 ≡ false
          → Waiting slot (env.release (target.enrol (locked_from start)).0)
      resumed_at : (slot : ℕ) (s : S) → Waiting slot s → Misses s → Waiting slot (looked_from s).0
      resumed_under_lock :
          (slot : ℕ) (s : S)
          → Waiting slot s
          → Misses s
          → Waiting slot (env.release (looked_under_lock s).0)

    -- A reason to end, in the state from which the lock is then taken for the decision.
    pub data Reason : ℕ → Verdict → S → Type 0 where
      late_at : (slot : ℕ) (s : S) → Waiting slot s → IsLate s → Reason slot Verdict.expired s
      late_after :
          (slot : ℕ) (s : S)
          → Waiting slot s
          → Misses s
          → is_timed_out (woken_from s).1 ≡ true
          → IsLate (looked_from s).0
          → Reason slot Verdict.expired (looked_from s).0
      asked_at :
          (slot : ℕ) (s : S)
          → Waiting slot s
          → Misses s
          → (looked_from s).1 ≡ true
          → Reason slot Verdict.interrupted (looked_from s).0
      failed_at :
          (slot : ℕ) (s : S)
          → Waiting slot s
          → Misses s
          → is_provider_failure (woken_from s).1 ≡ true
          → Reason slot Verdict.interrupted (looked_from s).0

    -- What a wait may return. Without a slot: the lock is refused, the predicate holds at once, no
    -- slot is free, or the predicate holds after the registration.
    pub data Justified : S × Verdict → Type 0 where
      not_granted :
          (env.acquire start).1 ≡ false → Justified (locked_from start, Verdict.interrupted)
      at_once :
          IsGranted start
          → target.holds (locked_from start) ≡ true
          → Justified (env.release (locked_from start), Verdict.fulfilled)
      refused :
          IsGranted start
          → target.holds (locked_from start) ≡ false
          → (target.enrol (locked_from start)).1 ≡ none
          → Justified (
            env.release (target.refuse (target.enrol (locked_from start)).0),
            Verdict.interrupted,
          )
      registered_late :
          (slot : ℕ)
          → IsGranted start
          → target.holds (locked_from start) ≡ false
          → (target.enrol (locked_from start)).1 ≡ some slot
          → target.holds (target.enrol (locked_from start)).0 ≡ true
          → Justified (
            env.release (target.settle slot (target.enrol (locked_from start)).0),
            Verdict.fulfilled,
          )
      not_regained :
          (slot : ℕ) (s : S)
          → Waiting slot s
          → IsEarly s
          → (env.acquire (woken_from s).0).1 ≡ false
          → Justified (found_from s, Verdict.interrupted)
      settled_at :
          (slot : ℕ) (s : S)
          → Waiting slot s
          → IsEarly s
          → IsGranted (woken_from s).0
          → target.holds (found_from s) ≡ true
          → Justified (env.release (target.settle slot (found_from s)), Verdict.fulfilled)
      late_under_lock :
          (slot : ℕ) (s : S)
          → Waiting slot s
          → Misses s
          → IsLate (looked_under_lock s).0
          → Justified (env.release (target.give_up slot (looked_under_lock s).0), Verdict.expired)
      stopped_under_lock :
          (slot : ℕ) (s : S)
          → Waiting slot s
          → Misses s
          → ((looked_under_lock s).1 ≡ true) ⊎ (is_provider_failure (woken_from s).1 ≡ true)
          → Justified
              (env.release (target.give_up slot (looked_under_lock s).0), Verdict.interrupted)
      not_locked :
          (slot : ℕ) (verdict : Verdict) (u : S)
          → Reason slot verdict u
          → (env.acquire u).1 ≡ false
          → Justified (locked_from u, Verdict.interrupted)
      settled_late :
          (slot : ℕ) (verdict : Verdict) (u : S)
          → Reason slot verdict u
          → IsGranted u
          → target.holds (locked_from u) ≡ true
          → Justified (env.release (target.settle slot (locked_from u)), Verdict.fulfilled)
      given_up_at :
          (slot : ℕ) (verdict : Verdict) (u : S)
          → Reason slot verdict u
          → IsGranted u
          → (target.holds (locked_from u) ≡ false) ⊎ (verdict ≡ Verdict.interrupted)
          → Justified (env.release (target.give_up slot (locked_from u)), verdict)

    abbrev pub JustifiedStep : Step S → Type 0
    JustifiedStep (Step.returned out) = Justified out
    JustifiedStep (Step.waiting slot s) = Waiting slot s

    pub conclude-Justified :
        (slot : ℕ) (verdict : Verdict) (u : S)
        → Reason slot verdict u
        → Justified (conclude env target context budget slot verdict u)
    unfolding conclude
    conclude-Justified slot verdict u why = elim (Bool-cases (env.acquire u).1) [
      | inr lost ↦ rw lost (not_locked slot verdict u why lost)
      | inl got ↦ rw got (elim (Bool-cases (target.holds (env.acquire u).0)) [
        | inl on ↦ rw on (settled_late slot verdict u why got on)
        | inr off ↦ rw off (given_up_at slot verdict u why got (inl off))
      ])
    ]

    pub abandon-Justified :
        (slot : ℕ) (u : S)
        → Reason slot Verdict.interrupted u
        → Justified (abandon env target context budget slot u)
    unfolding abandon
    abandon-Justified slot u why = elim (Bool-cases (env.acquire u).1) [
      | inr lost ↦ rw lost (not_locked slot Verdict.interrupted u why lost)
      | inl got ↦ rw got (given_up_at slot Verdict.interrupted u why got (inr refl))
    ]

    enrolled-Justified :
        IsGranted start
        → target.holds (locked_from start) ≡ false
        → JustifiedStep (enrolled env target context budget (target.enrol (locked_from start)))
    enrolled-Justified got off =
        let registered = target.enrol (locked_from start) in
        elim (Option-cases registered.1) [
          | inl full ↦ rw full (refused got off full)
          | inr (slot, free) ↦ rw free (elim (Bool-cases (target.holds registered.0)) [
            | inl on ↦ rw on (registered_late slot got off free on)
            | inr still ↦ rw still (enrolled_at slot got off free still)
          ])
        ]

    pub enter-Justified :
        IsGranted start → JustifiedStep (enter env target context budget (locked_from start))
    unfolding enter
    enter-Justified got = elim (Bool-cases (target.holds (locked_from start))) [
      | inl on ↦ rw on (at_once got on)
      | inr off ↦ rw off (enrolled-Justified got off)
    ]
