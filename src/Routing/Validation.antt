-- ===== src/Routing/Validation.antt =====
-- What the validation of the wake set finds.
use edp_threading.Base.{
  ℕ, zero, suc, ◌+◌, ◌<◌, ◌≤◌, ◌≡◌, ◌⊎◌, refl, subst, true, false, update, Bool-cases, inl, inr,
  arith, ==_iff, ne→==, ◌==◌,
}
use edp_threading.Wait.Budget.{WaitTimeout}
use edp_threading.Wait.Loop.{is_provider_failure}
use edp_threading.Routing.{
  ManagedContextWakeValidationResult, SignalProvider, ManagedContextWakeSet, validate_from,
  validate,
}

module _ {S : Type 0} (provider : SignalProvider S) where
  -- Whether a signal fails a wait without waiting.
  abbrev pub Fails : S → Type 0
  Fails s = is_provider_failure (provider.wait WaitTimeout.no_wait s).1 ≡ true

  abbrev pub Answers : S → Type 0
  Answers s = is_provider_failure (provider.wait WaitTimeout.no_wait s).1 ≡ false

  abbrev pub Finds :
      ℕ
      → ℕ
      → ManagedContextWakeSet S
      → ManagedContextWakeSet S × ManagedContextWakeValidationResult
      → Type 0
  Finds n i signals out =
      ((out.1 ≡ ManagedContextWakeValidationResult.ready)
        × ((j : ℕ) → i ≤ j → j < i + n → Answers (signals j)))
      ⊎ ((out.1 ≡ ManagedContextWakeValidationResult.provider_failure)
          × ((j : ℕ) × (i ≤ j) × (j < i + n) × Fails (signals j)))

  validate_from-Finds :
      (n i : ℕ) (signals : ManagedContextWakeSet S)
      → Finds n i signals (validate_from provider n i signals)
  unfolding validate_from
  validate_from-Finds zero i signals = inl (refl, λ j le lt. absurd (omega arith))
  validate_from-Finds (suc n) i signals =
      let (s, r) = provider.wait WaitTimeout.no_wait (signals i) in
      let waited = update signals i s in
      let kept : (j : ℕ) → i < j → waited j ≡ signals j =
        λ j lt. rw (ne→== i j (λ e. absurd (omega arith))) refl in
      elim (Bool-cases (is_provider_failure r)) [
        | inl broken ↦ rw broken (inr (refl, (i, omega arith, omega arith, broken)))
        | inr fine ↦ rw fine (elim (validate_from-Finds n (i + 1) waited) [
          | inl (e, rest) ↦ inl (
            e,
            λ j le lt. elim (Bool-cases (i == j)) [
              | inl here ↦ rw (← (==_iff i j).0 here) fine
              | inr other ↦
                  subst (λ x. Answers x) (kept j (ground arith))
                    (rest j (ground arith) (omega arith))
            ],
          )
          | inr (e, (j, le, lt, fails)) ↦
              inr (
                e,
                (j, omega arith, omega arith, subst (λ x. Fails x) (kept j (omega arith)) fails),
              )
        ])
      ]

  -- Validate answers Ready exactly when no context's signal fails a wait without waiting, and
  -- otherwise ProviderFailure.
  pub validate-Finds :
      (contexts : ℕ) (signals : ManagedContextWakeSet S)
      → Finds contexts 0 signals (validate provider contexts signals)
  unfolding validate
  validate-Finds contexts signals = validate_from-Finds contexts 0 signals
