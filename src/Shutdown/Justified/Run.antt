-- ===== src/Shutdown/Justified/Run.antt =====
-- The loop of a wait for the end of the shutdown keeps to what it may return.
use edp_threading.Base.{
  ℕ, zero, suc, ◌≡◌, subst, true, ◌&&◌, ◌||◌, some, Bool-cases, inl, inr, arith,
}
use mathlib.Core.Option.{some-injective}
use edp_threading.Types.{ShutdownWaitResult}
use edp_threading.Wait.Budget.{MonotonicWaitBudget, is_no_wait}
use edp_threading.Wait.Loop.{is_provider_failure, is_timed_out}
use edp_threading.Shutdown.{
  ShutdownWaitRuntime, ShutdownServices, Progress, expire, time_left, look_around, turn, run,
}
use edp_threading.Shutdown.Justified.{
  Out, look, IsLate, confirmed-Removes, abandoned-Removes, woken_from, found_from, asked_from,
  Misses, Waiting, Justified, JustifiedStep, woken_complete, late_complete, late,
  late_woken_complete, late_woken, stopped, decided, resumed_at,
}

module _ {W : Type 0} (services : ShutdownServices W) (contexts sentinel : ℕ)
    (budget : MonotonicWaitBudget) (context : ℕ) (start : ShutdownWaitRuntime W) where
  abbrev IsJustified : Out services contexts sentinel budget → Type 0
  IsJustified out = Justified services contexts sentinel budget context start out

  abbrev IsJustifiedStep : Progress W → Type 0
  IsJustifiedStep step = JustifiedStep services contexts sentinel budget context start step

  abbrev IsWaiting : ℕ → ShutdownWaitRuntime W → Type 0
  IsWaiting slot s = Waiting services contexts sentinel budget context start slot s

  expired-Justified :
      (slot : ℕ) (s : ShutdownWaitRuntime W)
      → IsWaiting slot s
      → IsLate services contexts sentinel budget s
      → IsJustified (expire services contexts sentinel slot s)
  unfolding expire
  expired-Justified slot s waits over =
      let at = (look services contexts sentinel budget s).0 in
      elim (Bool-cases (look services contexts sentinel budget s).1) [
        | inl on ↦ rw on (
            decided slot ShutdownWaitResult.completed at _ (late_complete slot s waits over on) (
              confirmed-Removes services contexts sentinel budget slot ShutdownWaitResult.completed
                at))
        | inr off ↦ rw off (
            decided slot ShutdownWaitResult.timed_out at _ (late slot s waits over off) (
              confirmed-Removes services contexts sentinel budget slot ShutdownWaitResult.timed_out
                at))
      ]

  woken_late-Justified :
      (slot : ℕ) (s : ShutdownWaitRuntime W)
      → IsWaiting slot s
      → Misses services contexts sentinel budget context start s
      → is_timed_out (woken_from services contexts sentinel budget context start s).1 ≡ true
      → IsLate services contexts sentinel budget
          (asked_from services contexts sentinel budget context start s).0
      → IsJustified (
          expire services contexts sentinel slot
            (asked_from services contexts sentinel budget context start s).0)
  unfolding expire
  woken_late-Justified slot s waits misses out over =
      let (at, complete) =
        look services contexts sentinel budget
          (asked_from services contexts sentinel budget context start s).0 in
      elim (Bool-cases complete) [
        | inl on ↦ rw on (
            decided slot ShutdownWaitResult.completed at _
              (late_woken_complete slot s waits misses over on)
              (confirmed-Removes services contexts sentinel budget slot ShutdownWaitResult.completed
                at))
        | inr off ↦ rw off (
            decided slot ShutdownWaitResult.timed_out at _
              (late_woken slot s waits misses out over off)
              (confirmed-Removes services contexts sentinel budget slot ShutdownWaitResult.timed_out
                at))
      ]

  look_around-Justified :
      (slot : ℕ) (s : ShutdownWaitRuntime W)
      → IsWaiting slot s
      → Misses services contexts sentinel budget context start s
      → IsJustifiedStep (
          look_around services contexts sentinel context budget slot
            (woken_from services contexts sentinel budget context start s).1
            (found_from services contexts sentinel budget context start s).0)
  unfolding look_around
  look_around-Justified slot s waits misses =
      let r = (woken_from services contexts sentinel budget context start s).1 in
      let (at, stop) = asked_from services contexts sentinel budget context start s in
      let out = is_no_wait (time_left services contexts sentinel budget at) in
      elim (Bool-cases (stop || is_provider_failure r)) [
        | inl over ↦ rw over (
            decided slot ShutdownWaitResult.interrupted at _ (stopped slot s waits misses over)
              (abandoned-Removes services contexts sentinel budget slot at))
        | inr go ↦ elim (Bool-cases (is_timed_out r && out)) [
          | inl over ↦
              rw (go, over)
                (woken_late-Justified slot s waits misses (ground (arith, over))
                  (ground (arith, over)))
          | inr early ↦ rw (go, early) (resumed_at slot s waits misses (ground (arith, go)))
        ]
      ]

  turn-Justified :
      (slot : ℕ) (s : ShutdownWaitRuntime W)
      → IsWaiting slot s
      → IsJustifiedStep (turn services contexts sentinel context budget slot s)
  unfolding turn
  turn-Justified slot s waits =
      let (at, complete) = found_from services contexts sentinel budget context start s in
      elim (Bool-cases (is_no_wait (time_left services contexts sentinel budget s))) [
        | inl over ↦ rw over (expired-Justified slot s waits over)
        | inr early ↦ elim (Bool-cases complete) [
          | inl on ↦
              rw (early, on)
                (decided slot ShutdownWaitResult.completed at _
                  (woken_complete slot s waits early on)
                  (confirmed-Removes services contexts sentinel budget slot
                    ShutdownWaitResult.completed at))
          | inr off ↦ rw (early, off) (look_around-Justified slot s waits (early, off))
        ]
      ]

  pub run-Justified :
      (fuel : ℕ) (step : Progress W) (out : Out services contexts sentinel budget)
      → IsJustifiedStep step
      → run services contexts sentinel context budget fuel step ≡ some out
      → IsJustified out
  unfolding run
  run-Justified fuel (Progress.returned r) out j e =
      subst (λ x. IsJustified x) (some-injective _ _ e) j
  run-Justified zero (Progress.waiting slot s) out j e = absurd (ground (arith, e))
  run-Justified (suc fuel) (Progress.waiting slot s) out j e =
      run-Justified fuel (turn services contexts sentinel context budget slot s) out
        (turn-Justified slot s j) e
