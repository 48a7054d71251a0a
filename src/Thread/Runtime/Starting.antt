-- ===== src/Thread/Runtime/Starting.antt =====
-- src/threading/detail/DedicatedThreadRuntime.hpp: what StartActivation does, on every branch.
use edp_threading.Base.{ℕ, ◌<◌, ◌≡◌, ◌⊎◌, ◌∙◌, refl, Bool, true, false, not, Bool-cases, inl, inr}
use edp_threading.Types.{ThreadStartResult}
use edp_threading.Lifecycle.{Outcome, is_success}
use edp_threading.Thread.Control.{
  DedicatedThreadOperationalState, DedicatedThreadControlStartResult, state as control_state, phase,
  is_running, try_start,
}
use edp_threading.Thread.Control.Activation.{Action, activation, operate-act}
use edp_threading.Thread.Runtime.{
  DedicatedThreadRuntime, Services, lock, start_woken, start_locked, start_activation,
}

module _ {W : Type 0} (services : Services W) (contexts sentinel context : ℕ) where
  -- The answers of the lifecycle and of the wake, under the lock.
  abbrev pub permitted : DedicatedThreadRuntime W → Bool
  permitted rt = (services.can_activate rt.world).1

  abbrev pub woken : DedicatedThreadRuntime W → Bool
  woken rt = is_success (services.wake context (services.can_activate rt.world).0).1

  abbrev pub Unchanged : DedicatedThreadRuntime W → DedicatedThreadRuntime W → Type 0
  Unchanged rt rt' = (rt'.control ≡ rt.control) × (rt'.join_waiters ≡ rt.join_waiters)

  -- The activation begins, in the other Phase.
  abbrev pub Begins :
      DedicatedThreadRuntime W → DedicatedThreadRuntime W × ThreadStartResult → Type 0
  Begins rt out =
      (permitted rt ≡ true)
      × (is_running (control_state rt.control) ≡ false)
      × (woken rt ≡ true)
      × (out.1 ≡ ThreadStartResult.started)
      × (activation out.0.control ≡ record {
        at = DedicatedThreadOperationalState.running;
        phase_bit = not (phase rt.control);
      })
      × (out.0.join_waiters ≡ rt.join_waiters)

  -- The activation is refused, for the first reason there is, and the runtime stays.
  abbrev pub Refuses :
      DedicatedThreadRuntime W → DedicatedThreadRuntime W × ThreadStartResult → Type 0
  Refuses rt out =
      Unchanged rt out.0
      × (((permitted rt ≡ false) × (out.1 ≡ ThreadStartResult.shutting_down))
          ⊎ ((permitted rt ≡ true)
              × (((is_running (control_state rt.control) ≡ true)
                    × (out.1 ≡ ThreadStartResult.already_running))
                  ⊎ ((is_running (control_state rt.control) ≡ false)
                      × (woken rt ≡ false)
                      × (out.1 ≡ ThreadStartResult.activation_failed)))))

  started_answer :
      (rt : DedicatedThreadRuntime W)
      → is_running (control_state rt.control) ≡ false
      → (try_start rt.control false).2 ≡ DedicatedThreadControlStartResult.started
  unfolding try_start
  started_answer rt idle = rw idle refl

  started_activation :
      (rt : DedicatedThreadRuntime W)
      → rt.control.value < 256
      → is_running (control_state rt.control) ≡ false
      → activation (try_start rt.control false).0 ≡ record {
        at = DedicatedThreadOperationalState.running;
        phase_bit = not (phase rt.control);
      }
  started_activation rt byte idle =
      (operate-act rt.control (Action.start false) byte).1 ∙ rw idle refl

  -- The end of a start, after a wake with the outcome `o`.
  abbrev AfterWake :
      DedicatedThreadRuntime W → Outcome → DedicatedThreadRuntime W × ThreadStartResult → Type 0
  AfterWake rt o out =
      ((is_success o ≡ true)
        × (out.1 ≡ ThreadStartResult.started)
        × (activation out.0.control ≡ record {
          at = DedicatedThreadOperationalState.running;
          phase_bit = not (phase rt.control);
        })
        × (out.0.join_waiters ≡ rt.join_waiters))
      ⊎ ((is_success o ≡ false)
          × Unchanged rt out.0
          × (out.1 ≡ ThreadStartResult.activation_failed))

  start_woken-AfterWake :
      (rt : DedicatedThreadRuntime W) (w : W) (o : Outcome)
      → rt.control.value < 256
      → is_running (control_state rt.control) ≡ false
      → AfterWake rt o (start_woken services contexts sentinel context rt (w, o))
  unfolding start_woken
  start_woken-AfterWake rt w (Outcome.failed e) byte idle = inr (refl, (refl, refl), refl)
  start_woken-AfterWake rt w Outcome.succeeded byte idle = inl (
    refl,
    rw (start_woken, started_answer rt idle) refl,
    rw (start_woken, started_answer rt idle) (started_activation rt byte idle),
    rw (start_woken, started_answer rt idle) refl,
  )

  start_locked_lem :
      (rt : DedicatedThreadRuntime W)
      → rt.control.value < 256
      → Begins rt (start_locked services contexts sentinel context rt)
        ⊎ Refuses rt (start_locked services contexts sentinel context rt)
  unfolding start_locked
  start_locked_lem rt byte = elim (Bool-cases (permitted rt)) [
    | inr late ↦ inr (rw late ((refl, refl), inl (refl, refl)))
    | inl allowed ↦ elim (Bool-cases (is_running (control_state rt.control))) [
      | inl running ↦ inr (rw (allowed, running) ((refl, refl), inr (refl, inl (refl, refl))))
      | inr idle ↦
          let w = (services.can_activate rt.world).0 in
          rw (allowed, idle)
            (elim (start_woken-AfterWake (record rt { world = w }) (services.wake context w).0
              (services.wake context w).1 byte idle) [
                | inl (ok, answer, begun, same) ↦ inl (refl, refl, ok, answer, begun, same)
                | inr (failed, same, answer) ↦ inr (same, inr (refl, inr (refl, failed, answer)))
              ])
    ]
  ]

  -- What StartActivation returns, by whether the lifecycle permits it and the lock is acquired.
  abbrev pub Starts :
      DedicatedThreadRuntime W → DedicatedThreadRuntime W × ThreadStartResult → Type 0
  Starts rt out =
      let called = record rt { world = (services.can_activate rt.world).0 } in
      let found = (lock services contexts sentinel context called).0 in
      ((permitted rt ≡ false) × (out ≡ (called, ThreadStartResult.shutting_down)))
      ⊎ ((permitted rt ≡ true)
          × ((lock services contexts sentinel context called).1 ≡ false)
          × (out ≡ (found, ThreadStartResult.activation_failed)))
      ⊎ ((permitted rt ≡ true)
          × ((lock services contexts sentinel context called).1 ≡ true)
          × (Begins found out ⊎ Refuses found out))

  -- StartActivation on every branch, when a control byte is found under the lock. It answers
  -- Started exactly when the lifecycle permits it before the lock and under it, the lock is
  -- acquired, no activation runs and the context's wake is signaled; the activation then runs
  -- in the other Phase. Otherwise it answers the first of ShuttingDown, ActivationFailed for
  -- the lock, ShuttingDown, AlreadyRunning and ActivationFailed for the wake that applies, and
  -- leaves the control byte and the joiners as it found them.
  pub start_activation_lem :
      (rt : DedicatedThreadRuntime W)
      → (lock services contexts sentinel context
          (record rt { world = (services.can_activate rt.world).0 })).0.control.value
        < 256
      → Starts rt (start_activation services contexts sentinel context rt)
  unfolding start_activation
  start_activation_lem rt byte =
      let called = record rt { world = (services.can_activate rt.world).0 } in
      elim (Bool-cases (permitted rt)) [
        | inr late ↦ inl (late, rw late refl)
        | inl allowed ↦ elim (Bool-cases (lock services contexts sentinel context called).1) [
          | inr lost ↦ inr (inl (allowed, lost, rw (allowed, lost) refl))
          | inl got ↦ inr (
              inr (
                allowed,
                got,
                rw (allowed, got)
                    (start_locked_lem (lock services contexts sentinel context called).0 byte),
              ))
        ]
      ]
