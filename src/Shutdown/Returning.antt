-- ===== src/Shutdown/Returning.antt =====
-- The waits for the end of the shutdown return, and for a reason.
use edp_threading.Base.{
  ℕ, zero, suc, ◌≡◌, ◌⊎◌, ◌≤◌, ◌<◌, ◌-◌, refl, true, false, ◌||◌, Option, none, some, Bool-cases,
  leb, arith, inl, inr,
}
use edp_threading.Types.{ShutdownWaitResult}
use edp_threading.Wait.Budget.{WaitTimeout, MonotonicWaitBudget, is_no_wait}
use edp_threading.Wait.Loop.{SignalWaitResult, is_provider_failure, is_timed_out}
use edp_threading.Shutdown.Justified.{SeesEnd, sees_end, Justified, enter-Justified, not_granted}
use edp_threading.Shutdown.Justified.Run.{run-Justified}
use edp_threading.Shutdown.{
  ShutdownWaitRuntime, ShutdownServices, Progress, is_shutdown_complete, is_complete, asked_to_stop,
  expire, registered, enrol, enter, time_left, look_around, turn, run, wait_on, wait_with_budget,
}

module _ {W : Type 0} (services : ShutdownServices W) (contexts sentinel : ℕ)
    (budget : MonotonicWaitBudget) where
  -- The clock does not go back, each wait of the platform takes time, and no time is left of the
  -- budget from an instant on.
  pub record Passes (end : ℕ) : Type 0 where
    pub acquire_later :
        (n : WaitTimeout) (rt : ShutdownWaitRuntime W)
        → services.monotonic_now rt.world ≤ services.monotonic_now (services.acquire n rt).0.world
    pub release_later :
        (rt : ShutdownWaitRuntime W)
        → services.monotonic_now rt.world ≤ services.monotonic_now (services.release rt).0.world
    pub state_later :
        (w : W) → services.monotonic_now w ≤ services.monotonic_now (services.lifecycle_state w).0
    pub stop_later :
        (context : ℕ) (w : W)
        → services.monotonic_now w ≤ services.monotonic_now (services.is_interrupted context w).0
    pub wait_later :
        (context : ℕ) (n : WaitTimeout) (rt : ShutdownWaitRuntime W)
        → services.monotonic_now rt.world
          < services.monotonic_now (services.wait context n rt).0.world
    pub ends :
        (rt : ShutdownWaitRuntime W)
        → end ≤ services.monotonic_now rt.world
        → is_no_wait (time_left services contexts sentinel budget rt) ≡ true

  -- A step that waits on does so from an instant on.
  abbrev pub From : ℕ → Progress W → Type 0
  From at (Progress.returned out) = Unit {0}
  From at (Progress.waiting slot rt) = at ≤ services.monotonic_now rt.world

  -- What the wait returns, from the first look at the lifecycle on.
  abbrev pub Returns : ShutdownWaitRuntime W → ShutdownWaitRuntime W × ShutdownWaitResult → Type 0
  Returns rt out =
      let (at, complete) = is_complete services contexts sentinel rt in
      ((complete ≡ true) × (out ≡ (at, ShutdownWaitResult.completed)))
      ⊎ ((complete ≡ false)
          × (((services.current_context_index ≡ none)
                × (out ≡ (at, ShutdownWaitResult.interrupted)))
              ⊎ ((context : ℕ) × (services.current_context_index ≡ some context)
                  × Justified services contexts sentinel budget context at out)))

  module _ (end : ℕ) (passes : Passes end) where
    registered-From :
        (rt : ShutdownWaitRuntime W) (slot : Option ℕ)
        → From (services.monotonic_now rt.world) (registered services contexts sentinel (rt, slot))
    unfolding registered
    registered-From rt none = record {}
    registered-From rt (some slot) =
        let at = (is_complete services contexts sentinel rt).0 in
        elim (Bool-cases (is_shutdown_complete (services.lifecycle_state rt.world).1)) [
          | inl on ↦ rw on (record {})
          | inr off ↦ elim (Bool-cases (services.release at).1) [
            | inl well ↦
                rw (off, well) (omega (arith, passes.state_later rt.world, passes.release_later at))
            | inr lost ↦ rw (off, lost) (record {})
          ]
        ]

    From-mono : (a b : ℕ) (step : Progress W) → a ≤ b → From b step → From a step
    From-mono a b (Progress.returned out) le from = record {}
    From-mono a b (Progress.waiting slot rt) le from = omega arith

    pub enter-From :
        (context : ℕ) (rt : ShutdownWaitRuntime W)
        → From (services.monotonic_now rt.world) (enter services contexts sentinel context rt)
    unfolding enter
    enter-From context rt =
        let at = (is_complete services contexts sentinel rt).0 in
        let (rt', slot) = enrol services contexts sentinel context at in
        elim (Bool-cases (is_shutdown_complete (services.lifecycle_state rt.world).1)) [
          | inl on ↦ rw on (record {})
          | inr off ↦ rw off (
              From-mono (services.monotonic_now rt.world) (services.monotonic_now rt'.world)
                (registered services contexts sentinel (rt', slot)) (passes.state_later rt.world)
                (registered-From rt' slot))
        ]

    look_around-From :
        (context slot : ℕ) (r : SignalWaitResult) (rt : ShutdownWaitRuntime W)
        → From
            (services.monotonic_now rt.world)
            (look_around services contexts sentinel context budget slot r rt)
    unfolding look_around
    look_around-From context slot r rt =
        let at = (asked_to_stop services contexts sentinel context rt).0 in
        let stop = (services.is_interrupted context rt.world).1 || is_provider_failure r in
        elim (Bool-cases stop) [
          | inl over ↦ rw over (record {})
          | inr go ↦
              elim (Bool-cases (is_no_wait (time_left services contexts sentinel budget at))) [
                | inl late ↦ elim (Bool-cases (is_timed_out r)) [
                  | inl out ↦ rw (go, out, late) (record {})
                  | inr woken ↦ rw (go, woken) (passes.stop_later context rt.world)
                ]
                | inr early ↦ elim (Bool-cases (is_timed_out r)) [
                  | inl out ↦ rw (go, out, early) (passes.stop_later context rt.world)
                  | inr woken ↦ rw (go, woken) (passes.stop_later context rt.world)
                ]
              ]
        ]

    -- A turn that waits on takes time.
    turn-From :
        (context slot : ℕ) (rt : ShutdownWaitRuntime W)
        → From
            (suc (services.monotonic_now rt.world))
            (turn services contexts sentinel context budget slot rt)
    unfolding turn
    turn-From context slot rt =
        let left = time_left services contexts sentinel budget rt in
        let (woken, r) = services.wait context left rt in
        let at = (is_complete services contexts sentinel woken).0 in
        elim (Bool-cases (is_no_wait left)) [
          | inl late ↦ rw late (record {})
          | inr early ↦
              elim (Bool-cases (is_shutdown_complete (services.lifecycle_state woken.world).1)) [
                | inl on ↦ rw (early, on) (record {})
                | inr off ↦
                    rw (early, off)
                      (From-mono (suc (services.monotonic_now rt.world))
                        (services.monotonic_now at.world)
                        (look_around services contexts sentinel context budget slot r at)
                        (omega (
                          arith,
                          passes.wait_later context left rt,
                          passes.state_later woken.world,
                        ))
                        (look_around-From context slot r at))
              ]
        ]

    last_turn :
        (context slot : ℕ) (rt : ShutdownWaitRuntime W)
        → end ≤ services.monotonic_now rt.world
        → turn services contexts sentinel context budget slot rt
          ≡ Progress.returned (expire services contexts sentinel slot rt)
    unfolding turn
    last_turn context slot rt late = rw (passes.ends rt late) refl

    run_total :
        (context fuel : ℕ) (step : Progress W) (at : ℕ)
        → From at step
        → end - at < fuel
        → (out : ShutdownWaitRuntime W × ShutdownWaitResult) × (run services contexts sentinel
              context budget fuel step
            ≡ some out)
    unfolding run
    run_total context fuel (Progress.returned out) at from enough = (out, refl)
    run_total context zero (Progress.waiting slot rt) at from enough = absurd (omega arith)
    run_total context (suc fuel) (Progress.waiting slot rt) at from enough =
        elim (Bool-cases (leb end (services.monotonic_now rt.world))) [
          | inl late ↦
              rw (run, last_turn context slot rt (ground arith))
                (expire services contexts sentinel slot rt, refl)
          | inr early ↦
              run_total context fuel (turn services contexts sentinel context budget slot rt)
                (suc (services.monotonic_now rt.world)) (turn-From context slot rt) (ground arith)
        ]

    wait_on-total :
        (fuel : ℕ) (rt : ShutdownWaitRuntime W) (o : Option ℕ)
        → end - services.monotonic_now rt.world < fuel
        → (out : ShutdownWaitRuntime W × ShutdownWaitResult) × (wait_on services contexts sentinel
              budget fuel rt o
            ≡ some out)
          × (((o ≡ none) × (out ≡ (rt, ShutdownWaitResult.interrupted)))
              ⊎ ((context : ℕ) × (o ≡ some context)
                  × Justified services contexts sentinel budget context rt out))
    unfolding wait_on
    wait_on-total fuel rt none enough =
        ((rt, ShutdownWaitResult.interrupted), refl, inl (refl, refl))
    wait_on-total fuel rt (some context) enough =
        let (at, acquired) = services.acquire WaitTimeout.forever rt in
        let step = enter services contexts sentinel context at in
        elim (Bool-cases acquired) [
          | inr lost ↦
              rw lost
                ((at, ShutdownWaitResult.interrupted), refl, inr (context, refl, not_granted lost))
          | inl got ↦
              let (out, e) =
                run_total context fuel step (services.monotonic_now at.world)
                  (enter-From context at)
                  (omega (arith, passes.acquire_later WaitTimeout.forever rt)) in
              (
                out,
                rw got e,
                inr (
                  context,
                  refl,
                  run-Justified services contexts sentinel budget context rt fuel step out
                      (enter-Justified services contexts sentinel budget context rt got) e,
                ),
              )
        ]

    -- A wait for the end of the shutdown, with a deadline, returns, when the clock does not
    -- go back, each wait of the platform takes time and no time is left of the budget from
    -- an instant on. It answers Completed only when its last look at the lifecycle found it
    -- ShutdownComplete, and TimedOut only when no time was left in the state that it had
    -- reached and the look that followed found the lifecycle in another state; in both cases
    -- the registration, if there was one, was taken back from its slot, and the lock
    -- released with success. Interrupted has a refused lock or a failed release behind it,
    -- no managed context, no free slot, an interruption or a failed wait. A look finds the
    -- end exactly in the state ShutdownComplete.
    pub shutdown_wait-total :
        (fuel : ℕ) (rt : ShutdownWaitRuntime W)
        → end - services.monotonic_now rt.world < fuel
        → (out : ShutdownWaitRuntime W × ShutdownWaitResult) × (wait_with_budget services contexts
              sentinel budget fuel rt
            ≡ some out)
          × Returns rt out
          × SeesEnd services contexts sentinel budget
    unfolding wait_with_budget
    shutdown_wait-total fuel rt enough =
        let (at, complete) = is_complete services contexts sentinel rt in
        let sees = sees_end services contexts sentinel budget in
        elim (Bool-cases complete) [
          | inl on ↦ ((at, ShutdownWaitResult.completed), rw on refl, inl (on, refl), sees)
          | inr off ↦
              let (out, e, why) =
                wait_on-total fuel at services.current_context_index
                  (omega (arith, passes.state_later rt.world)) in
              (out, rw off e, inr (off, why), sees)
        ]
