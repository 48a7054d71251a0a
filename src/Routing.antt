-- ===== src/Routing.antt =====
-- src/threading/detail/ManagedContextWakeSet.hpp and src/threading/detail/ManagedContextRouter.hpp:
-- the wake primitives of the managed contexts, and who the current context is. A signal is the
-- platform's: the interface `SignalProvider`.
pub mod Validation
use edp_threading.Base.{
  ℕ, zero, suc, ◌+◌, Bool, true, false, ◌&&◌, Option, none, some, if◌then◌else◌, update,
}
use edp_threading.Lifecycle.{Outcome}
use edp_threading.Wait.Budget.{WaitTimeout}
use edp_threading.Wait.Loop.{SignalWaitResult, is_provider_failure}

pub data ManagedContextWakeValidationResult : Type 0 where
  ready provider_failure : ManagedContextWakeValidationResult

pub record SignalProvider (S : Type 0) : Type 0 where
  pub notify : S → S × Outcome
  pub wait : WaitTimeout → S → S × SignalWaitResult

-- The signals, by the index of the context.
abbrev pub ManagedContextWakeSet : Type 0 → Type 0
ManagedContextWakeSet S = ℕ → S

-- The pointers of a router: a null pointer is `none`.
pub record ManagedContextRouter (C : Type 0) : Type 0 where
  pub topology_context : Option C
  pub resolve_current : Option (C → Option ℕ)
  pub resolve_interrupted : Option (C → ℕ → Bool)

module _ {S : Type 0} (provider : SignalProvider S) where
  -- The loop of Validate, of as many contexts from one on.
  unfoldable pub validate_from :
      ℕ → ℕ → ManagedContextWakeSet S → ManagedContextWakeSet S × ManagedContextWakeValidationResult
  validate_from zero i signals = (signals, ManagedContextWakeValidationResult.ready)
  validate_from (suc n) i signals =
      let (s, r) = provider.wait WaitTimeout.no_wait (signals i) in
      let waited = update signals i s in
      let rest = validate_from n (i + 1) waited in
      if is_provider_failure r
      then (waited, ManagedContextWakeValidationResult.provider_failure)
      else rest

  -- Validate.
  unfoldable pub validate :
      ℕ → ManagedContextWakeSet S → ManagedContextWakeSet S × ManagedContextWakeValidationResult
  unfolding validate_from
  validate contexts signals = validate_from contexts 0 signals

  -- Wake, of the set and of the router.
  unfoldable pub wake_context_at : ℕ → ManagedContextWakeSet S → ManagedContextWakeSet S × Outcome
  wake_context_at context signals =
      let (s, o) = provider.notify (signals context) in (update signals context s, o)

  -- Wait, of the set and of the router.
  unfoldable pub wait_on_context :
      ℕ → WaitTimeout → ManagedContextWakeSet S → ManagedContextWakeSet S × SignalWaitResult
  wait_on_context context timeout signals =
      let (s, r) = provider.wait timeout (signals context) in (update signals context s, r)

abbrev pub is_bound : {A : Type 0} → Option A → Bool
is_bound none = false
is_bound (some a) = true

module _ {C : Type 0} where
  -- The constructor from the wake set alone.
  abbrev pub unbound_router : ManagedContextRouter C
  unbound_router = record {
    topology_context = none;
    resolve_current = none;
    resolve_interrupted = none;
  }

  -- BindTopology.
  unfoldable pub bind_topology :
      ManagedContextRouter C
      → Option C
      → Option (C → Option ℕ)
      → Option (C → ℕ → Bool)
      → ManagedContextRouter C
  bind_topology router topology current interrupted = record router {
    topology_context = topology;
    resolve_current = current;
    resolve_interrupted = interrupted;
  }

  -- IsTopologyBound.
  unfoldable pub is_topology_bound : ManagedContextRouter C → Bool
  is_topology_bound router =
      is_bound router.topology_context
      && is_bound router.resolve_current
      && is_bound router.resolve_interrupted

  abbrev pub current_of : Option C → Option (C → Option ℕ) → Option ℕ
  current_of (some topology) (some current) = current topology
  current_of _ _ = none

  -- CurrentContextIndex.
  unfoldable pub routed_context_index : ManagedContextRouter C → Option ℕ
  unfolding is_topology_bound
  routed_context_index router =
      if is_topology_bound router
      then current_of router.topology_context router.resolve_current
      else none

  abbrev pub interrupted_of : Option C → Option (C → ℕ → Bool) → ℕ → Bool
  interrupted_of (some topology) (some interrupted) context = interrupted topology context
  interrupted_of _ _ context = true

  -- IsInterrupted.
  unfoldable pub is_routed_interrupted : ManagedContextRouter C → ℕ → Bool
  unfolding is_topology_bound
  is_routed_interrupted router context =
      if is_topology_bound router
      then interrupted_of router.topology_context router.resolve_interrupted context
      else true
