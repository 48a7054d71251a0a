-- ===== src/Wait/Loop/Termination.antt =====
-- A wait with a deadline returns, when each wait of the platform takes time.
use edp_threading.Base.{
  ℕ, zero, suc, ◌≡◌, ◌≤◌, ◌<◌, ◌-◌, refl, true, ◌&&◌, ◌||◌, some, Bool-cases, Option-cases, leb,
  arith, inl, inr,
}
use edp_threading.Wait.Budget.{WaitTimeout, MonotonicWaitBudget, is_no_wait}
use edp_threading.Wait.Loop.{
  SignalWaitResult, Environment, Target, Verdict, Step, Course, is_provider_failure, is_timed_out,
  time_left, conclude, enter, unlocked_turn, locked_turn, resumed, turn, run, wait_until,
}

module _ {S : Type 0} (env : Environment S) (target : Target S) (context : ℕ)
    (budget : MonotonicWaitBudget) where
  -- The clock does not go back, each wait of the platform takes time, and no time is left of the
  -- budget from an instant on.
  pub record Passes (end : ℕ) : Type 0 where
    pub acquire_later : (s : S) → env.monotonic_now s ≤ env.monotonic_now (env.acquire s).0
    pub release_later : (s : S) → env.monotonic_now s ≤ env.monotonic_now (env.release s)
    pub enrol_later : (s : S) → env.monotonic_now s ≤ env.monotonic_now (target.enrol s).0
    pub look_later :
        (s : S) → env.monotonic_now s ≤ env.monotonic_now (env.is_interrupted context s).0
    pub wait_later :
        (n : WaitTimeout) (s : S) → env.monotonic_now s < env.monotonic_now (env.wait context n s).0
    pub ends :
        (s : S)
        → end ≤ env.monotonic_now s
        → is_no_wait (time_left env target context budget s) ≡ true

  -- A step that waits on does so from an instant on.
  abbrev pub From : ℕ → Step S → Type 0
  From at (Step.returned out) = Unit {0}
  From at (Step.waiting slot s) = at ≤ env.monotonic_now s

  module _ (end : ℕ) (passes : Passes end) where
    pub enter-From : (s : S) → From (env.monotonic_now s) (enter env target context budget s)
    unfolding enter
    enter-From s = elim (Bool-cases (target.holds s)) [
      | inl on ↦ rw on (record {})
      | inr off ↦ rw off (elim (Option-cases (target.enrol s).1) [
        | inl full ↦ rw full (record {})
        | inr (slot, free) ↦ rw free (elim (Bool-cases (target.holds (target.enrol s).0)) [
          | inl on ↦ rw on (record {})
          | inr still ↦
              rw still
                (omega (arith, passes.enrol_later s, passes.release_later (target.enrol s).0))
        ])
      ])
    ]

    unlocked-From :
        (course : Course) (slot : ℕ) (r : SignalWaitResult) (s : S)
        → From (env.monotonic_now s) (unlocked_turn env target context budget course slot r s)
    unfolding unlocked_turn
    unlocked-From course slot r s = elim (Bool-cases (env.is_interrupted context s).1) [
      | inl stop ↦ rw stop (record {})
      | inr go ↦ elim (Bool-cases (is_provider_failure r)) [
        | inl broken ↦ rw (go, broken) (record {})
        | inr fine ↦
            let out =
              is_no_wait (time_left env target context budget (env.is_interrupted context s).0) in
            elim (Bool-cases (is_timed_out r && out)) [
              | inl over ↦ rw (go, fine, over) (record {})
              | inr early ↦ rw (go, fine, early) (passes.look_later s)
            ]
      ]
    ]

    locked-From :
        (slot : ℕ) (r : SignalWaitResult) (s : S)
        → From (env.monotonic_now s) (locked_turn env target context budget slot r s)
    unfolding locked_turn
    locked-From slot r s =
        let at = (env.is_interrupted context s).0 in
        let over =
          (env.is_interrupted context s).1
          || is_no_wait (time_left env target context budget at)
          || is_provider_failure r in
        elim (Bool-cases over) [
          | inl stop ↦ rw stop (record {})
          | inr go ↦ rw go (omega (arith, passes.look_later s, passes.release_later at))
        ]

    From-mono : (a b : ℕ) (step : Step S) → a ≤ b → From b step → From a step
    From-mono a b (Step.returned out) le from = record {}
    From-mono a b (Step.waiting slot s) le from = omega arith

    resumed-From :
        (course : Course) (slot : ℕ) (r : SignalWaitResult) (s : S)
        → From (env.monotonic_now s) (resumed env target context budget course slot r s)
    resumed-From Course.rechecking slot r s =
        From-mono (env.monotonic_now s) (env.monotonic_now (env.release s))
          (resumed env target context budget Course.rechecking slot r s) (passes.release_later s)
          (unlocked-From Course.rechecking slot r (env.release s))
    resumed-From Course.abandoning slot r s =
        From-mono (env.monotonic_now s) (env.monotonic_now (env.release s))
          (resumed env target context budget Course.abandoning slot r s) (passes.release_later s)
          (unlocked-From Course.abandoning slot r (env.release s))
    resumed-From Course.locked slot r s = locked-From slot r s

    -- A turn that waits on takes time.
    turn-From :
        (course : Course) (slot : ℕ) (s : S)
        → From (suc (env.monotonic_now s)) (turn env target context budget course slot s)
    unfolding turn
    turn-From course slot s =
        let left = time_left env target context budget s in
        let woken = (env.wait context left s).0 in
        let r = (env.wait context left s).1 in
        let at = (env.acquire woken).0 in
        elim (Bool-cases (is_no_wait left)) [
          | inl late ↦ rw late (record {})
          | inr early ↦ elim (Bool-cases (env.acquire woken).1) [
            | inr lost ↦ rw (early, lost) (record {})
            | inl got ↦ elim (Bool-cases (target.holds at)) [
              | inl on ↦ rw (early, got, on) (record {})
              | inr off ↦
                  rw (early, got, off)
                    (From-mono (suc (env.monotonic_now s)) (env.monotonic_now at)
                      (resumed env target context budget course slot r at)
                      (omega (arith, passes.wait_later left s, passes.acquire_later woken))
                      (resumed-From course slot r at))
            ]
          ]
        ]

    -- A turn with no time left is the last.
    last_turn :
        (course : Course) (slot : ℕ) (s : S)
        → end ≤ env.monotonic_now s
        → turn env target context budget course slot s
          ≡ Step.returned (conclude env target context budget slot Verdict.expired s)
    unfolding turn
    last_turn course slot s late = rw (passes.ends s late) refl

    pub run_total :
        (course : Course) (fuel : ℕ) (step : Step S) (at : ℕ)
        → From at step
        → end - at < fuel
        → (out : S × Verdict) × (run env target context budget course fuel step ≡ some out)
    unfolding run
    run_total course fuel (Step.returned out) at from enough = (out, refl)
    run_total course zero (Step.waiting slot s) at from enough = absurd (omega arith)
    run_total course (suc fuel) (Step.waiting slot s) at from enough =
        elim (Bool-cases (leb end (env.monotonic_now s))) [
          | inl late ↦
              rw (run, last_turn course slot s (ground arith))
                (conclude env target context budget slot Verdict.expired s, refl)
          | inr early ↦
              run_total course fuel (turn env target context budget course slot s)
                (suc (env.monotonic_now s)) (turn-From course slot s) (ground arith)
        ]

    -- A wait with a deadline returns: when the clock does not go back, each wait of the
    -- platform takes time and no time is left of the budget from an instant on, then the
    -- wait returns in at most one turn for every nanosecond until that instant and one more.
    pub wait_until-total :
        (course : Course) (fuel : ℕ) (s : S)
        → end - env.monotonic_now s < fuel
        → (out : S × Verdict) × (wait_until env target context budget course fuel s ≡ some out)
    unfolding wait_until
    wait_until-total course fuel s enough = elim (Bool-cases (env.acquire s).1) [
      | inr lost ↦ rw lost (((env.acquire s).0, Verdict.interrupted), refl)
      | inl got ↦ rw got (
          run_total course fuel (enter env target context budget (env.acquire s).0)
            (env.monotonic_now (env.acquire s).0) (enter-From (env.acquire s).0)
            (omega (arith, passes.acquire_later s)))
    ]
