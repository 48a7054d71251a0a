-- ===== src/Thread/Runtime/Publishing.antt =====
-- src/threading/detail/DedicatedThreadRuntime.hpp: the end of an activation, and who is woken by it.
use edp_threading.Base.{
  ℕ, ◌<◌, ◌≡◌, ◌⊎◌, ◌∙◌, refl, ap, Bool, true, false, ◌&&◌, ◌=?◌, List, elem, if◌then◌else◌,
  Bool-cases, inl, inr, arith, =?_refl, =?_eq,
}
use edp_threading.Lifecycle.{Outcome, is_success}
use edp_threading.Wait.Registration.{ThreadJoinRegistration, RegistrationSet, thread_join}
use edp_threading.Wait.Registration.Wakes.{
  Wakes, waiting_contexts, waiting_contexts-elem, wake_all, visit_active-Wakes,
}
use edp_threading.Thread.Control.{
  DedicatedThreadControl, DedicatedThreadOperationalState, DedicatedThreadControlPublicationResult,
  state as control_state, phase, is_running, try_publish_stopped,
}
use edp_threading.Thread.Control.Activation.{Action, activation, operate-act}
use edp_threading.Thread.Runtime.{
  DedicatedThreadRuntime, DedicatedThreadStoppedPublicationResult, Services, lock, unlock,
  wake_joiners, after_publication, publish_locked, publish_stopped,
}

module _ {W : Type 0} (services : Services W) (contexts sentinel context : ℕ) where
  -- The contexts that wait for the end of the activation of a Phase, by slot.
  abbrev pub joiners : Bool → RegistrationSet ThreadJoinRegistration → List ℕ
  joiners p s =
      waiting_contexts (thread_join sentinel) (λ r. r.waiting_context_index) (λ r. r.phase =? p)
        services.wake contexts s

  -- The wakes of all joiners of a Phase.
  abbrev pub all_woken : DedicatedThreadRuntime W → Bool → W × Outcome
  all_woken rt p = wake_all services.wake (joiners p rt.join_waiters) (rt.world, Outcome.succeeded)

  abbrev pub publication : Outcome → DedicatedThreadStoppedPublicationResult
  publication o =
      if is_success o
      then DedicatedThreadStoppedPublicationResult.published
      else DedicatedThreadStoppedPublicationResult.provider_failure

  -- The activation of the Phase ends: all its joiners have been woken.
  abbrev pub Ends :
      DedicatedThreadRuntime W
      → Bool
      → DedicatedThreadRuntime W × DedicatedThreadStoppedPublicationResult
      → Type 0
  Ends rt p out =
      (activation out.0.control
        ≡ record { at = DedicatedThreadOperationalState.stopped; phase_bit = p })
      × (out.0.world ≡ (services.release (all_woken rt p).0).0)
      × (out.1 ≡ publication (all_woken rt p).1)
      × ((j : ℕ) → out.0.join_waiters j ≡ rt.join_waiters j)
      × ((j : ℕ)
          → j < contexts
          → ((thread_join sentinel).is_active (rt.join_waiters j) && (rt.join_waiters j).phase =? p)
            ≡ true
          → elem (rt.join_waiters j).waiting_context_index (joiners p rt.join_waiters) ≡ true)

  -- An activation that is not the one of the Phase, or does not run, leaves the runtime.
  abbrev pub IsStale :
      DedicatedThreadRuntime W
      → DedicatedThreadRuntime W × DedicatedThreadStoppedPublicationResult
      → Type 0
  IsStale rt out = out ≡ (
    unlock services contexts sentinel context rt,
    DedicatedThreadStoppedPublicationResult.stale_activation,
  )

  wake_joiners-Wakes :
      (rt : DedicatedThreadRuntime W) (p : Bool)
      → Wakes
          (thread_join sentinel)
          (λ r. r.waiting_context_index)
          (λ r. r.phase =? p)
          services.wake
          contexts
          rt.join_waiters
          (rt.world, Outcome.succeeded)
          (wake_joiners services contexts sentinel context rt.join_waiters p rt.world)
  unfolding wake_joiners
  wake_joiners-Wakes rt p =
      visit_active-Wakes (thread_join sentinel) (λ r. r.waiting_context_index) (λ r. r.phase =? p)
        services.wake contexts rt.join_waiters (rt.world, Outcome.succeeded)

  published_answer :
      (c : DedicatedThreadControl) (p : Bool)
      → phase c ≡ p
      → is_running (control_state c) ≡ true
      → (try_publish_stopped c p).1 ≡ DedicatedThreadControlPublicationResult.published
  unfolding try_publish_stopped phase
  published_answer c p same running = ground arith

  published_activation :
      (c : DedicatedThreadControl) (p : Bool)
      → c.value < 256
      → phase c ≡ p
      → is_running (control_state c) ≡ true
      → activation (try_publish_stopped c p).0
        ≡ record { at = DedicatedThreadOperationalState.stopped; phase_bit = p }
  published_activation c p byte same running =
      (operate-act c (Action.publish_stopped p) byte).1 ∙ rw (same, running, =?_refl p) refl

  stale_answer :
      (c : DedicatedThreadControl) (p : Bool)
      → ((phase c =? p) && is_running (control_state c)) ≡ false
      → (try_publish_stopped c p ≡ (c, DedicatedThreadControlPublicationResult.phase_mismatch))
        ⊎ (try_publish_stopped c p ≡ (c, DedicatedThreadControlPublicationResult.not_running))
  unfolding try_publish_stopped phase
  stale_answer c p stale = ground arith

  publish_current :
      (rt : DedicatedThreadRuntime W) (p : Bool)
      → rt.control.value < 256
      → phase rt.control ≡ p
      → is_running (control_state rt.control) ≡ true
      → Ends rt p (publish_locked services contexts sentinel context rt p)
  unfolding publish_locked after_publication
  publish_current rt p byte same running =
      let wakes = wake_joiners-Wakes rt p in
      rw (publish_locked, published_answer rt.control p same running)
        (
          published_activation rt.control p byte same running,
          ap (λ at. (services.release at.0).0) wakes.1,
          ap (λ at. publication at.1) wakes.1,
          wakes.0,
          λ j lt waits.
              waiting_contexts-elem (thread_join sentinel) (λ r. r.waiting_context_index)
                (λ r. r.phase =? p) services.wake contexts j rt.join_waiters lt waits,
        )

  publish-IsStale :
      (rt : DedicatedThreadRuntime W) (p : Bool)
      → ((phase rt.control =? p) && is_running (control_state rt.control)) ≡ false
      → IsStale rt (publish_locked services contexts sentinel context rt p)
  unfolding publish_locked after_publication
  publish-IsStale rt p stale = elim (stale_answer rt.control p stale) [
    | inl other ↦ rw (publish_locked, other) refl
    | inr ended ↦ rw (publish_locked, ended) refl
  ]

  -- What PublishStopped returns.
  abbrev pub Publishes :
      DedicatedThreadRuntime W
      → Bool
      → DedicatedThreadRuntime W × DedicatedThreadStoppedPublicationResult
      → Type 0
  Publishes rt p out =
      let found = (lock services contexts sentinel context rt).0 in
      (((lock services contexts sentinel context rt).1 ≡ false)
        × (out ≡ (found, DedicatedThreadStoppedPublicationResult.provider_failure)))
      ⊎ (((lock services contexts sentinel context rt).1 ≡ true)
          × (((phase found.control ≡ p)
                × (is_running (control_state found.control) ≡ true)
                × Ends found p out)
              ⊎ ((((phase found.control =? p) && is_running (control_state found.control)) ≡ false)
                  × IsStale found out)))

  -- PublishStopped on every branch, when a control byte is found under the lock. Without the
  -- lock it answers ProviderFailure. An activation of the Phase that runs is stopped, every
  -- context that is registered to join it is woken, whether the wakes before it failed or not,
  -- and the answer is Published unless a wake failed. Any other activation stays as it is, no
  -- joiner is woken, and the answer is StaleActivation. The registrations stay.
  pub publish_stopped_lem :
      (rt : DedicatedThreadRuntime W) (p : Bool)
      → (lock services contexts sentinel context rt).0.control.value < 256
      → Publishes rt p (publish_stopped services contexts sentinel context rt p)
  unfolding publish_stopped
  publish_stopped_lem rt p byte =
      let found = (lock services contexts sentinel context rt).0 in
      elim (Bool-cases (lock services contexts sentinel context rt).1) [
        | inr lost ↦ inl (lost, rw lost refl)
        | inl got ↦ inr (
          got,
          rw got (elim (Bool-cases (phase found.control =? p)) [
            | inr other ↦ inr (rw other refl, publish-IsStale found p (rw other refl))
            | inl same ↦ elim (Bool-cases (is_running (control_state found.control))) [
              | inr idle ↦
                  inr (rw (same, idle) refl, publish-IsStale found p (rw (same, idle) refl))
              | inl running ↦
                  let e : phase found.control ≡ p = =?_eq (phase found.control) p same in
                  inl (e, running, publish_current found p byte e running)
            ]
          ]),
        )
      ]
