-- ===== src/Wait/Loop.antt =====
-- The wait for a predicate under a target's lock, as four functions write it:
-- src/threading/detail/DedicatedThreadRuntime.hpp, JoinWithBudget, and
-- src/threading/detail/TaskFacilityRuntime.hpp, WaitWithBudget, WaitForAdmissionCapacity and
-- WaitForWorkerGrant. What the target is, the functions' own files say.
pub mod Justified
pub mod Termination
use edp_threading.Base.{
  ℕ, zero, suc, Bool, true, false, ◌&&◌, ◌||◌, Option, none, some, if◌then◌else◌,
}
use edp_threading.Wait.Budget.{WaitTimeout, Delta, MonotonicWaitBudget, is_no_wait, remaining}

-- SignalWaitResult of the platform.
pub data SignalWaitResult : Type 0 where
  signaled timed_out provider_failure : SignalWaitResult

abbrev pub is_provider_failure : SignalWaitResult → Bool
is_provider_failure SignalWaitResult.provider_failure = true
is_provider_failure _ = false

abbrev pub is_timed_out : SignalWaitResult → Bool
is_timed_out SignalWaitResult.timed_out = true
is_timed_out _ = false

-- What the wait calls, on a state of the whole program. Other threads run, and time goes by, in
-- these calls; while the lock is held, the target changes only by the waiting thread's own steps.
pub record Environment (S : Type 0) : Type 0 where
  pub acquire : S → S × Bool
  pub release : S → S
  pub wait : ℕ → WaitTimeout → S → S × SignalWaitResult
  pub is_interrupted : ℕ → S → S × Bool
  pub monotonic_now : S → ℕ
  pub delta : Delta

-- What is waited for: the predicate, the registration (its slot, if there was one), what follows a
-- refused registration, and the two ways to take the registration back, when the predicate holds
-- and when the wait is given up.
pub record Target (S : Type 0) : Type 0 where
  pub holds : S → Bool
  pub enrol : S → S × Option ℕ
  pub refuse : S → S
  pub settle : ℕ → S → S
  pub give_up : ℕ → S → S

pub data Verdict : Type 0 where
  fulfilled expired interrupted : Verdict

-- How a step of a wait ends: with its verdict, or registered in a slot, without the lock.
pub data Step (S : Type 0) : Type 0 where
  returned : S × Verdict → Step S
  waiting : ℕ → S → Step S

-- A function takes one of two courses when the wait returns without the predicate: it releases the
-- lock before it looks for a reason to end, or it looks for one under the lock. After the former,
-- an interruption ends with another look at the predicate, or without.
pub data Course : Type 0 where
  rechecking abandoning locked : Course

module _ {S : Type 0} (env : Environment S) (target : Target S) (context : ℕ)
    (budget : MonotonicWaitBudget) where
  abbrev pub time_left : S → WaitTimeout
  time_left s = remaining env.delta budget (env.monotonic_now s)

  -- The lock is held and the predicate holds, or the wait is given up.
  abbrev pub settled : ℕ → S → S × Verdict
  settled slot s = (env.release (target.settle slot s), Verdict.fulfilled)

  abbrev pub given_up : ℕ → Verdict → S → S × Verdict
  given_up slot verdict s = (env.release (target.give_up slot s), verdict)

  -- The lock is taken, and the predicate decides between its verdict and another one.
  unfoldable pub conclude : ℕ → Verdict → S → S × Verdict
  conclude slot verdict s =
      let (s', acquired) = env.acquire s in
      if acquired
      then (if target.holds s' then settled slot s' else given_up slot verdict s')
      else (s', Verdict.interrupted)

  -- The wait is given up, and the registration taken back if the lock can be taken.
  unfoldable pub abandon : ℕ → S → S × Verdict
  abandon slot s =
      let (s', acquired) = env.acquire s in
      if acquired then given_up slot Verdict.interrupted s' else (s', Verdict.interrupted)

  abbrev pub interrupt : Course → ℕ → S → S × Verdict
  interrupt Course.rechecking slot s = conclude slot Verdict.interrupted s
  interrupt course slot s = abandon slot s

  abbrev pub enrolled : S × Option ℕ → Step S
  enrolled (s, none) = Step.returned (env.release (target.refuse s), Verdict.interrupted)
  enrolled (s, some slot) =
      if target.holds s then Step.returned (settled slot s) else Step.waiting slot (env.release s)

  -- The part before the loop, under the lock.
  unfoldable pub enter : S → Step S
  enter s =
      if target.holds s
      then Step.returned (env.release s, Verdict.fulfilled)
      else enrolled (target.enrol s)

  -- After a wait with the result `r`, without the lock.
  unfoldable pub unlocked_turn : Course → ℕ → SignalWaitResult → S → Step S
  unfolding conclude abandon remaining
  unlocked_turn course slot r s =
      let (s', stop) = env.is_interrupted context s in
      if stop
      then Step.returned (interrupt course slot s')
      else if is_provider_failure r
      then Step.returned (abandon slot s')
      else if is_timed_out r && is_no_wait (time_left s')
      then Step.returned (conclude slot Verdict.expired s')
      else Step.waiting slot s'

  -- After a wait with the result `r`, under the lock.
  unfoldable pub locked_turn : ℕ → SignalWaitResult → S → Step S
  unfolding remaining
  locked_turn slot r s =
      let (s', stop) = env.is_interrupted context s in
      if stop || is_no_wait (time_left s') || is_provider_failure r
      then Step.returned (
          given_up slot
            (if stop || is_provider_failure r then Verdict.interrupted else Verdict.expired) s')
      else Step.waiting slot (env.release s')

  -- The lock is held, and the predicate does not hold.
  abbrev pub resumed : Course → ℕ → SignalWaitResult → S → Step S
  resumed Course.locked slot r s = locked_turn slot r s
  resumed course slot r s = unlocked_turn course slot r (env.release s)

  -- One turn of the loop, from a slot.
  unfoldable pub turn : Course → ℕ → S → Step S
  unfolding remaining conclude unlocked_turn locked_turn
  turn course slot s =
      if is_no_wait (time_left s)
      then Step.returned (conclude slot Verdict.expired s)
      else (let (s1, r) = env.wait context (time_left s) s in
          let (s2, acquired) = env.acquire s1 in
          if acquired
          then (if target.holds s2
              then Step.returned (settled slot s2)
              else resumed course slot r s2)
          else Step.returned (s2, Verdict.interrupted))

  -- The loop, on fuel: `none` says that it has not ended.
  unfoldable pub run : Course → ℕ → Step S → Option (S × Verdict)
  unfolding turn
  run course fuel (Step.returned out) = some out
  run course zero (Step.waiting slot s) = none
  run course (suc fuel) (Step.waiting slot s) = run course fuel (turn course slot s)

  -- The whole wait, from the acquisition of the lock.
  unfoldable pub wait_until : Course → ℕ → S → Option (S × Verdict)
  unfolding enter run
  wait_until course fuel s =
      let (s', acquired) = env.acquire s in
      if acquired then run course fuel (enter s') else some (s', Verdict.interrupted)
