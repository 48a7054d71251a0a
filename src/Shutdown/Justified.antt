-- ===== src/Shutdown/Justified.antt =====
-- Why a wait for the end of the shutdown ends as it does: each result has its reason in a state
-- that the wait itself has reached.
pub mod Run
use edp_threading.Base.{
  ℕ, zero, suc, ◌≡◌, ◌≢◌, ◌⊎◌, refl, subst, Bool, true, false, ◌&&◌, ◌||◌, Option, none, some,
  Bool-cases, Option-cases, inl, inr, arith,
}
use mathlib.Core.Option.{some-injective}
use edp_threading.Types.{ShutdownWaitResult}
use edp_threading.Lifecycle.{InfrastructureState}
use edp_threading.Wait.Budget.{WaitTimeout, MonotonicWaitBudget, is_no_wait}
use edp_threading.Wait.Loop.{SignalWaitResult, is_provider_failure, is_timed_out}
use edp_threading.Wait.Registration.{shutdown_wait, unregister}
use edp_threading.Shutdown.{
  ShutdownWaitRuntime, ShutdownServices, Progress, is_shutdown_complete, is_complete, asked_to_stop,
  take_back, remove, confirmed, expire, abandoned, registered, enrol, enter, time_left, look_around,
  turn, run,
}

module _ {W : Type 0} (services : ShutdownServices W) (contexts sentinel : ℕ)
    (budget : MonotonicWaitBudget) where
  -- What a look at the lifecycle tells.
  abbrev pub SeesEnd : Type 0
  SeesEnd =
      (s : InfrastructureState)
      → ((is_shutdown_complete s ≡ true) × (s ≡ InfrastructureState.shutdown_complete))
        ⊎ ((is_shutdown_complete s ≡ false) × (s ≢ InfrastructureState.shutdown_complete))

  pub sees_end : SeesEnd
  sees_end InfrastructureState.shutdown_complete = inl (refl, refl)
  sees_end InfrastructureState.uninitialized = inr (refl, λ e. absurd (cc))
  sees_end InfrastructureState.initialized = inr (refl, λ e. absurd (cc))
  sees_end InfrastructureState.started = inr (refl, λ e. absurd (cc))
  sees_end InfrastructureState.start_rollback = inr (refl, λ e. absurd (cc))
  sees_end InfrastructureState.shutting_down = inr (refl, λ e. absurd (cc))

  abbrev pub Out : Type 0
  Out = ShutdownWaitRuntime W × ShutdownWaitResult

  abbrev pub IsLate : ShutdownWaitRuntime W → Type 0
  IsLate rt = is_no_wait (time_left services contexts sentinel budget rt) ≡ true

  abbrev pub IsEarly : ShutdownWaitRuntime W → Type 0
  IsEarly rt = is_no_wait (time_left services contexts sentinel budget rt) ≡ false

  -- A look at the lifecycle.
  abbrev pub look : ShutdownWaitRuntime W → ShutdownWaitRuntime W × Bool
  look rt =
      let (w, s) = services.lifecycle_state rt.world in
      (record rt { world = w }, is_shutdown_complete s)

  abbrev pub unregistered : ℕ → ShutdownWaitRuntime W → ShutdownWaitRuntime W
  unregistered slot rt = record rt {
    waiters = unregister (shutdown_wait sentinel) contexts rt.waiters slot;
  }

  -- A result that stands only if the lock was released well.
  abbrev pub Confirms : ShutdownWaitResult → ShutdownWaitRuntime W × Bool → Out → Type 0
  Confirms result p out =
      ((p.1 ≡ true) × (out ≡ (p.0, result)))
      ⊎ ((p.1 ≡ false) × (out ≡ (p.0, ShutdownWaitResult.interrupted)))

  -- A result that stands only if the registration was taken back.
  abbrev pub Removes : ℕ → ShutdownWaitResult → ShutdownWaitRuntime W → Out → Type 0
  Removes slot result u out =
      let (at, granted) = services.acquire WaitTimeout.forever u in
      ((granted ≡ false) × (out ≡ (at, ShutdownWaitResult.interrupted)))
      ⊎ ((granted ≡ true) × Confirms result (services.release (unregistered slot at)) out)

  confirmed-Confirms :
      (result : ShutdownWaitResult) (p : ShutdownWaitRuntime W × Bool)
      → Confirms result p (confirmed services contexts sentinel result p)
  confirmed-Confirms result p = elim (Bool-cases p.1) [
    | inl well ↦ inl (well, rw well refl)
    | inr lost ↦ inr (lost, rw lost refl)
  ]

  confirmed-Removes :
      (slot : ℕ) (result : ShutdownWaitResult) (u : ShutdownWaitRuntime W)
      → Removes slot result u
          (confirmed services contexts sentinel result (remove services contexts sentinel slot u))
  unfolding remove
  confirmed-Removes slot result u =
      let (at, granted) = services.acquire WaitTimeout.forever u in
      elim (Bool-cases granted) [
        | inl got ↦ inr (
          got,
          rw got (
              confirmed-Confirms result
                (services.release (take_back services contexts sentinel slot at))),
        )
        | inr lost ↦ inl (lost, rw lost refl)
      ]

  abandoned-Removes :
      (slot : ℕ) (u : ShutdownWaitRuntime W)
      → Removes slot ShutdownWaitResult.interrupted u (abandoned services contexts sentinel slot u)
  unfolding remove
  abandoned-Removes slot u =
      let (at, granted) = services.acquire WaitTimeout.forever u in
      let after = services.release (take_back services contexts sentinel slot at) in
      elim (Bool-cases granted) [
        | inl got ↦ inr (
          got,
          elim (Bool-cases after.1) [
            | inl well ↦ inl (well, rw got refl)
            | inr bad ↦ inr (bad, rw got refl)
          ],
        )
        | inr lost ↦ inl (lost, rw lost refl)
      ]

  module _ (context : ℕ) (start : ShutdownWaitRuntime W) where
    -- The lock is taken at the start, the lifecycle looked at, the context registered, and the
    -- lifecycle looked at again.
    abbrev pub entered : ShutdownWaitRuntime W × Bool
    entered = services.acquire WaitTimeout.forever start

    abbrev pub enrolled : ShutdownWaitRuntime W × Option ℕ
    enrolled = enrol services contexts sentinel context (look entered.0).0

    abbrev pub looked_again : ShutdownWaitRuntime W × Bool
    looked_again = look enrolled.0

    -- A turn from a state: the wait with the time that is left, the look at the lifecycle after
    -- it, and the one for an interruption.
    abbrev pub woken_from : ShutdownWaitRuntime W → ShutdownWaitRuntime W × SignalWaitResult
    woken_from s = services.wait context (time_left services contexts sentinel budget s) s

    abbrev pub found_from : ShutdownWaitRuntime W → ShutdownWaitRuntime W × Bool
    found_from s = look (woken_from s).0

    abbrev pub asked_from : ShutdownWaitRuntime W → ShutdownWaitRuntime W × Bool
    asked_from s = asked_to_stop services contexts sentinel context (found_from s).0

    abbrev pub Misses : ShutdownWaitRuntime W → Type 0
    Misses s = IsEarly s × ((found_from s).1 ≡ false)

    -- The states at the beginning of a turn, with the slot of the registration.
    pub data Waiting : ℕ → ShutdownWaitRuntime W → Type 0 where
      registered_at :
          (slot : ℕ)
          → entered.1 ≡ true
          → (look entered.0).1 ≡ false
          → enrolled.1 ≡ some slot
          → looked_again.1 ≡ false
          → (services.release looked_again.0).1 ≡ true
          → Waiting slot (services.release looked_again.0).0
      resumed_at :
          (slot : ℕ) (s : ShutdownWaitRuntime W)
          → Waiting slot s
          → Misses s
          → (asked_from s).1 ≡ false
          → Waiting slot (asked_from s).0

    -- What a turn decides on, in a state from which the registration is then taken back.
    pub data Decides : ℕ → ShutdownWaitResult → ShutdownWaitRuntime W → Type 0 where
      woken_complete :
          (slot : ℕ) (s : ShutdownWaitRuntime W)
          → Waiting slot s
          → IsEarly s
          → (found_from s).1 ≡ true
          → Decides slot ShutdownWaitResult.completed (found_from s).0
      late_complete :
          (slot : ℕ) (s : ShutdownWaitRuntime W)
          → Waiting slot s
          → IsLate s
          → (look s).1 ≡ true
          → Decides slot ShutdownWaitResult.completed (look s).0
      late :
          (slot : ℕ) (s : ShutdownWaitRuntime W)
          → Waiting slot s
          → IsLate s
          → (look s).1 ≡ false
          → Decides slot ShutdownWaitResult.timed_out (look s).0
      late_woken_complete :
          (slot : ℕ) (s : ShutdownWaitRuntime W)
          → Waiting slot s
          → Misses s
          → IsLate (asked_from s).0
          → (look (asked_from s).0).1 ≡ true
          → Decides slot ShutdownWaitResult.completed (look (asked_from s).0).0
      late_woken :
          (slot : ℕ) (s : ShutdownWaitRuntime W)
          → Waiting slot s
          → Misses s
          → is_timed_out (woken_from s).1 ≡ true
          → IsLate (asked_from s).0
          → (look (asked_from s).0).1 ≡ false
          → Decides slot ShutdownWaitResult.timed_out (look (asked_from s).0).0
      stopped :
          (slot : ℕ) (s : ShutdownWaitRuntime W)
          → Waiting slot s
          → Misses s
          → ((asked_from s).1 || is_provider_failure (woken_from s).1) ≡ true
          → Decides slot ShutdownWaitResult.interrupted (asked_from s).0

    -- What the part from the acquisition of the lock on may return.
    pub data Justified : Out → Type 0 where
      not_granted : entered.1 ≡ false → Justified (entered.0, ShutdownWaitResult.interrupted)
      complete_under_lock :
          (out : Out)
          → entered.1 ≡ true
          → (look entered.0).1 ≡ true
          → Confirms ShutdownWaitResult.completed (services.release (look entered.0).0) out
          → Justified out
      no_slot :
          entered.1 ≡ true
          → enrolled.1 ≡ none
          → Justified ((services.release enrolled.0).0, ShutdownWaitResult.interrupted)
      complete_after_registration :
          (slot : ℕ) (out : Out)
          → entered.1 ≡ true
          → enrolled.1 ≡ some slot
          → looked_again.1 ≡ true
          → Confirms ShutdownWaitResult.completed
              (services.release (unregistered slot looked_again.0))
              out
          → Justified out
      not_released :
          (slot : ℕ)
          → entered.1 ≡ true
          → enrolled.1 ≡ some slot
          → (services.release looked_again.0).1 ≡ false
          → Justified ((services.release looked_again.0).0, ShutdownWaitResult.interrupted)
      decided :
          (slot : ℕ) (result : ShutdownWaitResult) (u : ShutdownWaitRuntime W) (out : Out)
          → Decides slot result u
          → Removes slot result u out
          → Justified out

    abbrev pub JustifiedStep : Progress W → Type 0
    JustifiedStep (Progress.returned out) = Justified out
    JustifiedStep (Progress.waiting slot s) = Waiting slot s

    registered-Justified :
        (slot : ℕ)
        → entered.1 ≡ true
        → (look entered.0).1 ≡ false
        → enrolled.1 ≡ some slot
        → JustifiedStep (registered services contexts sentinel (enrolled.0, some slot))
    unfolding registered
    registered-Justified slot got off free = elim (Bool-cases looked_again.1) [
      | inl on ↦ rw on (
          complete_after_registration slot _ got free on (
            confirmed-Confirms ShutdownWaitResult.completed
              (services.release (take_back services contexts sentinel slot looked_again.0))))
      | inr still ↦ elim (Bool-cases (services.release looked_again.0).1) [
        | inl well ↦ rw (still, well) (registered_at slot got off free still well)
        | inr lost ↦ rw (still, lost) (not_released slot got free lost)
      ]
    ]

    pub enter-Justified :
        entered.1 ≡ true → JustifiedStep (enter services contexts sentinel context entered.0)
    unfolding enter registered
    enter-Justified got = elim (Bool-cases (look entered.0).1) [
      | inl on ↦ rw on (
          complete_under_lock _ got on
            (confirmed-Confirms ShutdownWaitResult.completed (services.release (look entered.0).0)))
      | inr off ↦ rw off (elim (Option-cases enrolled.1) [
        | inl full ↦ rw full (no_slot got full)
        | inr (slot, free) ↦ rw free (registered-Justified slot got off free)
      ])
    ]
