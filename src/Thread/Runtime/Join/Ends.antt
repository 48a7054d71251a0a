-- ===== src/Thread/Runtime/Join/Ends.antt =====
-- src/threading/detail/DedicatedThreadRuntime.hpp: why and when a join returns.
use edp_threading.Base.{
  ℕ, ◌≡◌, ◌⊎◌, refl, true, false, Option, none, some, Bool-cases, Option-cases, sym, subst, ◌∙◌,
  inl, inr,
}
use mathlib.Core.Option.{some-injective, none-ne-some}
use edp_threading.Types.{ThreadJoinResult}
use edp_threading.Wait.Budget.{MonotonicWaitBudget}
use edp_threading.Wait.Loop.{Verdict, Course, enter, run}
use edp_threading.Wait.Loop.Justified.{Justified, enter-Justified}
use edp_threading.Wait.Loop.Justified.Run.{run-Justified}
use edp_threading.Thread.Control.{state as control_state, phase}
use edp_threading.Thread.Runtime.{DedicatedThreadRuntime, Services, is_never_started, lock, unlock}
use edp_threading.Thread.Runtime.Join.{
  environment, activation_stops, join_result, joined, join_locked, join_with_budget,
}

module _ {W : Type 0} (services : Services W) (contexts sentinel context : ℕ)
    (budget : MonotonicWaitBudget) where
  -- The result of a wait, from a state, for the end of the activation found under the lock.
  abbrev pub Waits :
      ℕ → DedicatedThreadRuntime W → DedicatedThreadRuntime W × ThreadJoinResult → Type 0
  Waits waiting rt out =
      let found = (lock services contexts sentinel context rt).0 in
      (verdict : Verdict) × (out.1 ≡ join_result services contexts sentinel context verdict)
      × Justified (environment services contexts sentinel context)
          (activation_stops services contexts sentinel context (phase found.control) waiting)
          waiting budget rt (out.0, verdict)

  -- What JoinWithBudget returns.
  abbrev pub Joins : DedicatedThreadRuntime W → DedicatedThreadRuntime W × ThreadJoinResult → Type 0
  Joins rt out =
      let found = (lock services contexts sentinel context rt).0 in
      ((services.current_context_index ≡ none) × (out ≡ (rt, ThreadJoinResult.interrupted)))
      ⊎ (((lock services contexts sentinel context rt).1 ≡ false)
          × (out ≡ (found, ThreadJoinResult.interrupted)))
      ⊎ ((is_never_started (control_state found.control) ≡ true)
          × (out
              ≡ (unlock services contexts sentinel context found, ThreadJoinResult.never_started)))
      ⊎ ((is_never_started (control_state found.control) ≡ false)
          × ((waiting : ℕ) × (services.current_context_index ≡ some waiting)
              × Waits waiting rt out))

  module _ (fuel : ℕ) (rt : DedicatedThreadRuntime W) where
    abbrev found : DedicatedThreadRuntime W
    found = (lock services contexts sentinel context rt).0

    -- The wait of a join, from the state under the lock.
    abbrev pub wait_of : ℕ → Option (DedicatedThreadRuntime W × Verdict)
    wait_of waiting =
        run (environment services contexts sentinel context)
          (activation_stops services contexts sentinel context (phase found.control) waiting)
          waiting budget Course.abandoning fuel
          (enter (environment services contexts sentinel context)
            (activation_stops services contexts sentinel context (phase found.control) waiting)
            waiting budget found)

    waits :
        (waiting : ℕ) (r : DedicatedThreadRuntime W × Verdict)
        → (lock services contexts sentinel context rt).1 ≡ true
        → wait_of waiting ≡ some r
        → Waits waiting rt (r.0, join_result services contexts sentinel context r.1)
    waits waiting r got e = (
      r.1,
      refl,
      run-Justified (environment services contexts sentinel context)
          (activation_stops services contexts sentinel context (phase found.control) waiting)
          waiting budget rt Course.abandoning fuel
          (enter (environment services contexts sentinel context)
            (activation_stops services contexts sentinel context (phase found.control) waiting)
            waiting budget found)
          r
          (enter-Justified (environment services contexts sentinel context)
            (activation_stops services contexts sentinel context (phase found.control) waiting)
            waiting budget rt got)
          e,
    )

    joined-Waits :
        (waiting : ℕ) (o : Option (DedicatedThreadRuntime W × Verdict))
        (out : DedicatedThreadRuntime W × ThreadJoinResult)
        → (lock services contexts sentinel context rt).1 ≡ true
        → wait_of waiting ≡ o
        → joined services contexts sentinel context o ≡ some out
        → Waits waiting rt out
    joined-Waits waiting none out got e h = absurd (none-ne-some out h)
    joined-Waits waiting (some r) out got e h =
        subst (Waits waiting rt) (some-injective _ _ h) (waits waiting r got e)

    locked-Joins :
        (waiting : ℕ) (out : DedicatedThreadRuntime W × ThreadJoinResult)
        → services.current_context_index ≡ some waiting
        → (lock services contexts sentinel context rt).1 ≡ true
        → join_locked services contexts sentinel context waiting budget fuel found ≡ some out
        → Joins rt out
    unfolding join_locked
    locked-Joins waiting out at got h =
        elim (Bool-cases (is_never_started (control_state found.control))) [
          | inl never ↦ inr (inr (inl (never, sym (some-injective _ _ (sym (rw never refl) ∙ h)))))
          | inr once ↦ inr (
              inr (
                inr (
                  once,
                  (
                    waiting,
                    at,
                    joined-Waits waiting (wait_of waiting) out got refl (sym (rw once refl) ∙ h),
                  ),
                )))
        ]

    -- What JoinWithBudget returns, whenever it returns.
    pub join_with_budget-Joins :
        (out : DedicatedThreadRuntime W × ThreadJoinResult)
        → join_with_budget services contexts sentinel context budget fuel rt ≡ some out
        → Joins rt out
    unfolding join_with_budget
    join_with_budget-Joins out h = elim (Option-cases services.current_context_index) [
      | inl nowhere ↦ inl (nowhere, sym (some-injective _ _ (sym (rw nowhere refl) ∙ h)))
      | inr (waiting, at) ↦ elim (Bool-cases (lock services contexts sentinel context rt).1) [
        | inr lost ↦ inr (inl (lost, sym (some-injective _ _ (sym (rw (at, lost) refl) ∙ h))))
        | inl got ↦ locked-Joins waiting out at got (sym (rw (at, got) refl) ∙ h)
      ]
    ]
