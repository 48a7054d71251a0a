-- ===== src/Thread/Runtime/Join/Tests.antt =====
-- The tests that a join makes, and how it takes its registration back.
use edp_threading.Base.{
  ℕ, ◌≡◌, ◌⊎◌, refl, Bool, true, false, Bool-cases, ap, inl, inr, ◌≢◌, ==_refl, ne→==, ◌=?◌,
  =?_refl, =?_eq,
}
use edp_threading.Wait.Registration.{thread_join, unregister}
use edp_threading.Thread.Control.{
  DedicatedThreadControl, DedicatedThreadOperationalState, state as control_state, phase,
}
use edp_threading.Thread.Runtime.{
  DedicatedThreadRuntime, Services, is_activation_stopped, is_stopped, is_never_started,
}
use edp_threading.Thread.Runtime.Join.{activation_stops}

-- What the two tests of a join tell of a control byte.
abbrev pub TestsEnd : Type 0
TestsEnd =
    (c : DedicatedThreadControl) (p : Bool)
    → (((is_activation_stopped c p ≡ true)
          × ((phase c ≢ p) ⊎ (control_state c ≡ DedicatedThreadOperationalState.stopped)))
        ⊎ ((is_activation_stopped c p ≡ false)
            × (phase c ≡ p)
            × (control_state c ≢ DedicatedThreadOperationalState.stopped)))
      × (((is_never_started (control_state c) ≡ true)
            × (control_state c ≡ DedicatedThreadOperationalState.never_started))
          ⊎ ((is_never_started (control_state c) ≡ false)
              × (control_state c ≢ DedicatedThreadOperationalState.never_started)))

stopped_cases :
    (s : DedicatedThreadOperationalState)
    → ((is_stopped s ≡ true) × (s ≡ DedicatedThreadOperationalState.stopped))
      ⊎ ((is_stopped s ≡ false) × (s ≢ DedicatedThreadOperationalState.stopped))
stopped_cases DedicatedThreadOperationalState.stopped = inl (refl, refl)
stopped_cases DedicatedThreadOperationalState.never_started = inr (refl, λ e. absurd (cc))
stopped_cases DedicatedThreadOperationalState.running = inr (refl, λ e. absurd (cc))
stopped_cases DedicatedThreadOperationalState.running_stop_requested = inr (refl, λ e. absurd (cc))

never_started_cases :
    (s : DedicatedThreadOperationalState)
    → ((is_never_started s ≡ true) × (s ≡ DedicatedThreadOperationalState.never_started))
      ⊎ ((is_never_started s ≡ false) × (s ≢ DedicatedThreadOperationalState.never_started))
never_started_cases DedicatedThreadOperationalState.never_started = inl (refl, refl)
never_started_cases DedicatedThreadOperationalState.stopped = inr (refl, λ e. absurd (cc))
never_started_cases DedicatedThreadOperationalState.running = inr (refl, λ e. absurd (cc))
never_started_cases DedicatedThreadOperationalState.running_stop_requested =
    inr (refl, λ e. absurd (cc))

pub tests_end : TestsEnd
unfolding is_activation_stopped
tests_end c p = (
  elim (Bool-cases (phase c =? p)) [
    | inr other ↦ inl (
      rw other refl,
      inl (λ e. absurd (let same = =?_refl p in let d = ap (λ b. b =? p) e in cc)),
    )
    | inl same ↦ elim (stopped_cases (control_state c)) [
      | inl (on, e) ↦ inl (rw (same, on) refl, inr e)
      | inr (off, e) ↦ inr (rw (same, off) refl, =?_eq (phase c) p same, e)
    ]
  ],
  never_started_cases (control_state c),
)

module _ {W : Type 0} (services : Services W) (contexts sentinel context : ℕ) where
  -- A state without the registration of a slot, and otherwise as another one.
  abbrev pub IsWithout : ℕ → DedicatedThreadRuntime W → DedicatedThreadRuntime W → Type 0
  IsWithout slot before after =
      ((thread_join sentinel).is_active (after.join_waiters slot) ≡ false)
      × ((j : ℕ) → slot ≢ j → after.join_waiters j ≡ before.join_waiters j)
      × (after.control ≡ before.control)
      × (after.world ≡ before.world)

  -- How a join takes its registration back, on either way out.
  abbrev pub TakesBack : Type 0
  TakesBack =
      (p : Bool) (waiting slot : ℕ) (rt : DedicatedThreadRuntime W)
      → IsWithout slot rt
          ((activation_stops services contexts sentinel context p waiting).settle slot rt)
        × IsWithout slot rt
            ((activation_stops services contexts sentinel context p waiting).give_up slot rt)

  pub takes_back : TakesBack
  unfolding unregister
  takes_back p waiting slot rt =
      let cleared = (thread_join sentinel).is_active-clear (rt.join_waiters slot) in
      let gone : IsWithout slot rt (record rt {
        join_waiters = unregister (thread_join sentinel) contexts rt.join_waiters slot;
      }) =
        (rw (==_refl slot) cleared, λ j ne. rw (ne→== slot j ne) refl, refl, refl) in
      (gone, gone)
