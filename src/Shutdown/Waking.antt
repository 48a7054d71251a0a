-- ===== src/Shutdown/Waking.antt =====
-- The wakes at the end of the shutdown, and the registrations that they find.
use edp_threading.Base.{
  ℕ, ◌<◌, ◌≡◌, ◌≢◌, ◌⊎◌, refl, true, false, ◌&&◌, some, if◌then◌else◌, update, Bool-cases, inl, inr,
  elem, ==_refl, ne→==, List,
}
use edp_threading.Lifecycle.{Outcome, is_success}
use edp_threading.Wait.Budget.{WaitTimeout}
use edp_threading.Wait.Registration.{ShutdownWaitRegistration, RegistrationSet, shutdown_wait}
use edp_threading.Wait.Registration.Laws.{register_lem}
use edp_threading.Wait.Registration.Wakes.{
  wake_all, waiting_contexts, waiting_contexts-elem, visit_active-Wakes,
}
use edp_threading.Shutdown.{
  ShutdownWaitRuntime, ShutdownServices, Progress, ShutdownWaitWakeResult, is_shutdown_complete,
  is_complete, registered, enter, wake_registered, wake_completed,
}

module _ {W : Type 0} (services : ShutdownServices W) (contexts sentinel : ℕ) where
  -- The contexts that wait, by slot.
  abbrev pub waiters_of : RegistrationSet ShutdownWaitRegistration → List ℕ
  waiters_of s =
      waiting_contexts (shutdown_wait sentinel) (λ r. r.waiting_context_index) (λ r. true)
        services.wake contexts s

  -- The world after the wakes of the waiters found under the lock, and the first failure.
  abbrev pub woken_from : ShutdownWaitRuntime W → W × Outcome
  woken_from rt = wake_all services.wake (waiters_of rt.waiters) (rt.world, Outcome.succeeded)

  -- What WakeCompleted does.
  abbrev pub WakesAll :
      ShutdownWaitRuntime W → ShutdownWaitRuntime W × ShutdownWaitWakeResult → Type 0
  WakesAll rt out =
      let (found, acquired) = services.acquire WaitTimeout.forever rt in
      ((acquired ≡ false) × (out ≡ (found, ShutdownWaitWakeResult.provider_failure)))
      ⊎ ((acquired ≡ true)
          × ((i : ℕ)
              → i < contexts
              → (shutdown_wait sentinel).is_active (found.waiters i) ≡ true
              → elem ((found.waiters i).waiting_context_index) (waiters_of found.waiters) ≡ true)
          × ((woken : ShutdownWaitRuntime W) × ((j : ℕ) → woken.waiters j ≡ found.waiters j)
              × (woken.world ≡ (woken_from found).0)
              × (out ≡ (
                (services.release woken).0,
                if (services.release woken).1 && is_success (woken_from found).1
                    then ShutdownWaitWakeResult.succeeded
                    else ShutdownWaitWakeResult.provider_failure,
              ))))

  -- WakeCompleted answers ProviderFailure without the lock and then wakes no one. With it, it
  -- wakes the contexts of the active slots in their order, among them that of every active
  -- slot, whether the wakes before failed or not, and keeps the registrations; it answers
  -- Succeeded exactly when every wake and the release of the lock succeed.
  pub wake_completed_lem :
      (rt : ShutdownWaitRuntime W) → WakesAll rt (wake_completed services contexts sentinel rt)
  unfolding wake_completed wake_registered
  wake_completed_lem rt =
      let (found, acquired) = services.acquire WaitTimeout.forever rt in
      let (same, e) =
        visit_active-Wakes (shutdown_wait sentinel) (λ r. r.waiting_context_index) (λ r. true)
          services.wake contexts found.waiters (found.world, Outcome.succeeded) in
      elim (Bool-cases acquired) [
        | inr lost ↦ inl (lost, rw lost refl)
        | inl got ↦ inr (
          got,
          (λ i lt active.
              waiting_contexts-elem (shutdown_wait sentinel) (λ r. r.waiting_context_index)
                (λ r. true) services.wake contexts i found.waiters lt (rw active refl)),
          (
            (wake_registered services contexts sentinel found).0,
            same,
            rw e refl,
            rw (got, ← e) refl,
          ),
        )
      ]

  -- A registration of a context that waits on.
  abbrev pub Registered : ℕ → Progress W → Type 0
  Registered context (Progress.returned out) = Unit {0}
  Registered context (Progress.waiting slot rt) =
      (slot < contexts)
      × ((before : ShutdownWaitRuntime W) × (before.waiters slot
            ≡ record { waiting_context_index = context })
          × (is_shutdown_complete (services.lifecycle_state before.world).1 ≡ false)
          × (services.release (is_complete services contexts sentinel before).0 ≡ (rt, true)))

  registered-Registered :
      (context slot : ℕ) (rt : ShutdownWaitRuntime W)
      → slot < contexts
      → rt.waiters slot ≡ record { waiting_context_index = context }
      → Registered context (registered services contexts sentinel (rt, some slot))
  unfolding registered
  registered-Registered context slot rt lt mine =
      let at = (is_complete services contexts sentinel rt).0 in
      elim (Bool-cases (is_shutdown_complete (services.lifecycle_state rt.world).1)) [
        | inl on ↦ rw on (record {})
        | inr off ↦ elim (Bool-cases (services.release at).1) [
          | inr lost ↦ rw (off, lost) (record {})
          | inl well ↦ rw (off, well) (lt, (rt, mine, off, rw well refl))
        ]
      ]

  -- A wait for the end of the shutdown does not begin to wait before it can be woken: when it
  -- goes on to its loop, its context stood registered in a slot, with a lifecycle that was
  -- seen not to be complete after the registration, and then the lock was released with
  -- success. The context's index is not the one that marks an inactive slot.
  pub enter-Registered :
      (context : ℕ) (rt : ShutdownWaitRuntime W)
      → context ≢ sentinel
      → Registered context (enter services contexts sentinel context rt)
  unfolding enter registered
  enter-Registered context rt real =
      let at = (is_complete services contexts sentinel rt).0 in
      elim (Bool-cases (is_shutdown_complete (services.lifecycle_state rt.world).1)) [
        | inl on ↦ rw on (record {})
        | inr off ↦
            elim (register_lem (shutdown_wait sentinel) contexts at.waiters
              (record { waiting_context_index = context }) 0
              (rw (ne→== context sentinel real) refl)) [
                | inl full ↦ rw (off, full.1) (record {})
                | inr (i, lt, free, lower, e, count) ↦
                    rw (off, e)
                      (registered-Registered context i
                        (record at {
                          waiters =
                              update at.waiters i (record { waiting_context_index = context });
                        })
                        lt (rw (==_refl i) refl))
              ]
      ]
