-- ===== src/Wait/Loop/Justified/Run.antt =====
-- The loop of a wait keeps to what a wait may return, and ends.
use edp_threading.Base.{
  ℕ, zero, suc, ◌≡◌, ◌<◌, ◌-◌, some, inl, inr, Bool-cases, subst, ◌&&◌, arith, or_true,
}
use mathlib.Core.Option.{some-injective}
use edp_threading.Wait.Budget.{MonotonicWaitBudget, is_no_wait}
use edp_threading.Wait.Loop.Justified.{
  Waiting, Reason, Justified, JustifiedStep, Misses, woken_from, found_from, looked_from,
  looked_under_lock, conclude-Justified, abandon-Justified, enter-Justified, late_at, late_after,
  asked_at, failed_at, settled_at, late_under_lock, stopped_under_lock, not_regained, resumed_at,
  resumed_under_lock, not_granted,
}
use edp_threading.Wait.Loop.{
  Environment, Target, Verdict, Step, Course, is_provider_failure, is_timed_out, time_left,
  interrupt, enter, unlocked_turn, locked_turn, resumed, turn, run, wait_until,
}
use edp_threading.Wait.Loop.Termination.{Passes, wait_until-total}

module _ {S : Type 0} (env : Environment S) (target : Target S) (context : ℕ)
    (budget : MonotonicWaitBudget) (start : S) where
  interrupt-Justified :
      (course : Course) (slot : ℕ) (u : S)
      → Reason env target context budget start slot Verdict.interrupted u
      → Justified env target context budget start
          (interrupt env target context budget course slot u)
  interrupt-Justified Course.rechecking slot u why =
      conclude-Justified env target context budget start slot Verdict.interrupted u why
  interrupt-Justified Course.abandoning slot u why =
      abandon-Justified env target context budget start slot u why
  interrupt-Justified Course.locked slot u why =
      abandon-Justified env target context budget start slot u why

  unlocked_turn-Justified :
      (course : Course) (slot : ℕ) (s : S)
      → Waiting env target context budget start slot s
      → Misses env target context budget s
      → JustifiedStep env target context budget start (
          unlocked_turn env target context budget course slot
            (woken_from env target context budget s).1
            (env.release (found_from env target context budget s)))
  unfolding unlocked_turn
  unlocked_turn-Justified course slot s waits misses =
      let r = (woken_from env target context budget s).1 in
      let at = (looked_from env target context budget s).0 in
      elim (Bool-cases (looked_from env target context budget s).1) [
        | inl stop ↦
            rw stop (interrupt-Justified course slot at (asked_at slot s waits misses stop))
        | inr go ↦ elim (Bool-cases (is_provider_failure r)) [
          | inl broken ↦
              rw (go, broken)
                (abandon-Justified env target context budget start slot at
                  (failed_at slot s waits misses broken))
          | inr fine ↦
              let out = is_no_wait (time_left env target context budget at) in
              elim (Bool-cases (is_timed_out r && out)) [
                | inl over ↦
                    rw (go, fine, over)
                      (conclude-Justified env target context budget start slot Verdict.expired at (
                        late_after slot s waits misses (ground (arith, over))
                          (ground (arith, over))))
                | inr early ↦ rw (go, fine, early) (resumed_at slot s waits misses)
              ]
        ]
      ]

  -- The two reasons to give up under the lock, when there is one.
  locked_turn-Justified :
      (slot : ℕ) (s : S)
      → Waiting env target context budget start slot s
      → Misses env target context budget s
      → JustifiedStep env target context budget start (
          locked_turn env target context budget slot
            (woken_from env target context budget s).1
            (found_from env target context budget s))
  unfolding locked_turn
  locked_turn-Justified slot s waits misses =
      let at = (looked_under_lock env target context budget s).0 in
      let late = is_no_wait (time_left env target context budget at) in
      elim (Bool-cases (looked_under_lock env target context budget s).1) [
        | inl stop ↦ rw stop (stopped_under_lock slot s waits misses (inl stop))
        | inr go ↦
            elim (Bool-cases (is_provider_failure (woken_from env target context budget s).1)) [
              | inl broken ↦
                  rw (go, broken, or_true late)
                    (stopped_under_lock slot s waits misses (inr broken))
              | inr fine ↦ elim (Bool-cases late) [
                | inl late ↦ rw (go, fine, late) (late_under_lock slot s waits misses late)
                | inr early ↦ rw (go, fine, early) (resumed_under_lock slot s waits misses)
              ]
            ]
      ]

  resumed-Justified :
      (course : Course) (slot : ℕ) (s : S)
      → Waiting env target context budget start slot s
      → Misses env target context budget s
      → JustifiedStep env target context budget start (
          resumed env target context budget course slot
            (woken_from env target context budget s).1
            (found_from env target context budget s))
  resumed-Justified Course.rechecking slot s waits misses =
      unlocked_turn-Justified Course.rechecking slot s waits misses
  resumed-Justified Course.abandoning slot s waits misses =
      unlocked_turn-Justified Course.abandoning slot s waits misses
  resumed-Justified Course.locked slot s waits misses = locked_turn-Justified slot s waits misses

  turn-Justified :
      (course : Course) (slot : ℕ) (s : S)
      → Waiting env target context budget start slot s
      → JustifiedStep env target context budget start (turn env target context budget course slot s)
  unfolding turn
  turn-Justified course slot s waits =
      let left = time_left env target context budget s in
      let woken = (env.wait context left s).0 in
      let at = (env.acquire woken).0 in
      elim (Bool-cases (is_no_wait left)) [
        | inl late ↦ rw late (
            conclude-Justified env target context budget start slot Verdict.expired s
              (late_at slot s waits late))
        | inr early ↦ elim (Bool-cases (env.acquire woken).1) [
          | inr lost ↦ rw (early, lost) (not_regained slot s waits early lost)
          | inl got ↦ elim (Bool-cases (target.holds at)) [
            | inl on ↦ rw (early, got, on) (settled_at slot s waits early got on)
            | inr off ↦
                rw (early, got, off) (resumed-Justified course slot s waits (early, got, off))
          ]
        ]
      ]

  pub run-Justified :
      (course : Course) (fuel : ℕ) (step : Step S) (out : S × Verdict)
      → JustifiedStep env target context budget start step
      → run env target context budget course fuel step ≡ some out
      → Justified env target context budget start out
  unfolding run
  run-Justified course fuel (Step.returned r) out j e =
      subst (Justified env target context budget start) (some-injective _ _ e) j
  run-Justified course zero (Step.waiting slot s) out j e = absurd (ground (arith, e))
  run-Justified course (suc fuel) (Step.waiting slot s) out j e =
      run-Justified course fuel (turn env target context budget course slot s) out
        (turn-Justified course slot s j) e

  returned-Justified :
      (course : Course) (fuel : ℕ) (out : S × Verdict)
      → wait_until env target context budget course fuel start ≡ some out
      → Justified env target context budget start out
  unfolding wait_until
  returned-Justified course fuel out = elim (Bool-cases (env.acquire start).1) [
    | inr lost ↦ rw lost (λ e.
        subst (Justified env target context budget start) (some-injective _ _ e) (not_granted lost))
    | inl got ↦ rw got (
        run-Justified course fuel (enter env target context budget (env.acquire start).0) out
          (enter-Justified env target context budget start got))
  ]

  -- A wait with a deadline returns, when the clock does not go back, each wait of the platform
  -- takes time and no time is left of the budget from an instant on, and it decides under the
  -- lock for a reason that it has met. When it returns with the predicate fulfilled, the
  -- predicate held while the lock was held, and what was registered was settled in the slot
  -- that the registration took. When it returns for lack of time, no time was left in the
  -- state from which the lock was taken for the decision, or under the lock for the course
  -- that decides there, the predicate did not hold under that lock, and the same slot was
  -- given up. When it returns interrupted, the context was interrupted or the wait failed in
  -- the wait's last turn, and the same slot was given up, or no slot was free, or the lock was
  -- not granted.
  pub wait_until-Justified :
      (end : ℕ)
      → Passes env target context budget end
      → (course : Course) (fuel : ℕ) → end - env.monotonic_now start < fuel
      → (out : S × Verdict) × (wait_until env target context budget course fuel start ≡ some out)
        × Justified env target context budget start out
  wait_until-Justified end passes course fuel enough =
      let (out, e) =
        wait_until-total env target context budget end passes course fuel start enough in
      (out, e, returned-Justified course fuel out e)
