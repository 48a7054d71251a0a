-- ===== src/Lifecycle.antt =====
-- src/threading/detail/InfrastructureLifecycle.hpp: the authoritative global lifecycle state and
-- the transactional start of the topology's resources. A resource is known by its index in the
-- tuple; what the resources and the lock do is the interface `Platform` over a world.
pub mod Calls
pub mod Start
use edp_threading.Base.{ℕ, zero, suc, ◌+◌, Bool, true, false, ltb, if◌then◌else◌}
use edp_threading.Types.{
  ThreadingInitializationResult, ThreadingStartResult, ThreadingShutdownResult,
}

pub data InfrastructureState : Type 0 where
  uninitialized initialized started start_rollback shutting_down shutdown_complete :
      InfrastructureState

-- A result of the platform: its success enumerator, or another one, by its number.
pub data Outcome : Type 0 where
  succeeded : Outcome
  failed : ℕ → Outcome

abbrev pub is_success : Outcome → Bool
is_success Outcome.succeeded = true
is_success (Outcome.failed n) = false

-- `head != Succeeded ? head : tail`.
abbrev pub first_failure : Outcome → Outcome → Outcome
first_failure Outcome.succeeded tail = tail
first_failure (Outcome.failed n) tail = Outcome.failed n

-- A call that leaves these components: on the resource of an index, on the state's spin lock, or
-- on the waiters for shutdown. That a resource is quiescent is its success.
pub data Call : Type 0 where
  start_infrastructure request_termination join_infrastructure destroy_infrastructure : ℕ → Call
  begin_shutdown_cancellation request_stop is_execution_quiescent : ℕ → Call
  release_state_lock wake_shutdown_waiters : Call

-- What a call does to the world, and what it returns.
abbrev pub Platform : Type 0 → Type 0
Platform W = Call → W → W × Outcome

pub record InfrastructureLifecycle (W : Type 0) : Type 0 where
  pub state : InfrastructureState
  pub world : W

abbrev pub can_activate : InfrastructureState → Bool
can_activate InfrastructureState.started = true
can_activate _ = false

abbrev pub should_terminate : InfrastructureState → Bool
should_terminate InfrastructureState.start_rollback = true
should_terminate InfrastructureState.shutting_down = true
should_terminate InfrastructureState.shutdown_complete = true
should_terminate _ = false

module _ {W : Type 0} (platform : Platform W) where
  -- ReadState: the lock is released, and the result of that is not looked at.
  unfoldable pub read_state :
      InfrastructureLifecycle W → InfrastructureLifecycle W × InfrastructureState
  read_state l = (record l { world = (platform Call.release_state_lock l.world).0 }, l.state)

  -- PublishState.
  unfoldable pub publish_state :
      InfrastructureLifecycle W → InfrastructureState → InfrastructureLifecycle W × Outcome
  publish_state l s =
      let (w, o) = platform Call.release_state_lock l.world in (record { state = s; world = w }, o)

  -- StartNext: from resource `i`, with `n` left; the count of those that started goes along.
  unfoldable pub start_next : ℕ → ℕ → W → ℕ → W × Outcome × ℕ
  start_next zero i w count = (w, Outcome.succeeded, count)
  start_next (suc n) i w count =
      let (w', o) = platform (Call.start_infrastructure i) w in
      let rest = start_next n (i + 1) w' (count + 1) in
      elim o [ Outcome.succeeded ↦ rest | Outcome.failed e ↦ (w', Outcome.failed e, count) ]

  -- The traversals of WakeStarted, JoinStarted and DestroyAll: `call` on each resource that
  -- passes the test, the first failure being the result.
  unfoldable pub traverse : (ℕ → Call) → (ℕ → Bool) → ℕ → ℕ → W → W × Outcome
  traverse call test zero i w = (w, Outcome.succeeded)
  traverse call test (suc n) i w =
      let (w', o) : W × Outcome = if test i then platform (call i) w else (w, Outcome.succeeded) in
      let (w'', tail) = traverse call test n (i + 1) w' in (w'', first_failure o tail)

  unfoldable pub wake_started : ℕ → ℕ → W → W × Outcome
  unfolding traverse
  wake_started n count w = traverse Call.request_termination (λ i. ltb i count) n 0 w

  unfoldable pub join_started : ℕ → ℕ → W → W × Outcome
  unfolding traverse
  join_started n count w = traverse Call.join_infrastructure (λ i. ltb i count) n 0 w

  unfoldable pub destroy_all : ℕ → W → W × Outcome
  unfolding traverse
  destroy_all n w = traverse Call.destroy_infrastructure (λ i. true) n 0 w

  unfoldable pub commit_initialization_in :
      InfrastructureLifecycle W
      → InfrastructureState
      → InfrastructureLifecycle W × ThreadingInitializationResult
  unfolding publish_state
  commit_initialization_in l InfrastructureState.uninitialized =
      let (l', o) = publish_state l InfrastructureState.initialized in
      (
        l',
        if is_success o
            then ThreadingInitializationResult.succeeded
            else ThreadingInitializationResult.provider_failure,
      )
  commit_initialization_in l _ = (l, ThreadingInitializationResult.already_initialized)

  -- CommitInitialization.
  unfoldable pub commit_initialization :
      InfrastructureLifecycle W → InfrastructureLifecycle W × ThreadingInitializationResult
  unfolding read_state commit_initialization_in
  commit_initialization l = let (l', s) = read_state l in commit_initialization_in l' s

  -- The rollback of Start, when `count` of the `n` resources have started.
  unfoldable pub roll_back :
      ℕ → ℕ → InfrastructureLifecycle W → InfrastructureLifecycle W × ThreadingStartResult
  unfolding publish_state wake_started join_started destroy_all
  roll_back n count l =
      let (l', _) = publish_state l InfrastructureState.start_rollback in
      let (w1, _) = wake_started n count l'.world in
      let (w2, _) = join_started n count w1 in
      let (w3, _) = destroy_all n w2 in
      (record l' { world = w3 }, ThreadingStartResult.provider_failure)

  unfoldable pub start_in :
      ℕ
      → InfrastructureLifecycle W
      → InfrastructureState
      → InfrastructureLifecycle W × ThreadingStartResult
  unfolding start_next roll_back publish_state
  start_in n l InfrastructureState.started = (l, ThreadingStartResult.already_started)
  start_in n l InfrastructureState.initialized =
      let (w, o, count) = start_next n 0 l.world 0 in
      if is_success o
      then (let (l', r) = publish_state (record l { world = w }) InfrastructureState.started in
          (
            l',
            if is_success r
                then ThreadingStartResult.succeeded
                else ThreadingStartResult.provider_failure,
          ))
      else roll_back n count (record l { world = w })
  start_in n l _ = (l, ThreadingStartResult.not_initialized)

  -- Start, of a topology of `n` resources.
  unfoldable pub start :
      ℕ → InfrastructureLifecycle W → InfrastructureLifecycle W × ThreadingStartResult
  unfolding read_state start_in
  start n l = let (l', s) = read_state l in start_in n l' s

  unfoldable pub begin_shutdown_in :
      InfrastructureLifecycle W
      → InfrastructureState
      → InfrastructureLifecycle W × ThreadingShutdownResult
  unfolding publish_state
  begin_shutdown_in l InfrastructureState.shutdown_complete =
      (l, ThreadingShutdownResult.already_completed)
  begin_shutdown_in l InfrastructureState.shutting_down =
      (l, ThreadingShutdownResult.already_shutting_down)
  begin_shutdown_in l InfrastructureState.started =
      ((publish_state l InfrastructureState.shutting_down).0, ThreadingShutdownResult.accepted)
  begin_shutdown_in l _ = (l, ThreadingShutdownResult.not_started)

  -- BeginShutdown.
  unfoldable pub begin_shutdown :
      InfrastructureLifecycle W → InfrastructureLifecycle W × ThreadingShutdownResult
  unfolding read_state begin_shutdown_in
  begin_shutdown l = let (l', s) = read_state l in begin_shutdown_in l' s

  -- PublishShutdownComplete.
  unfoldable pub publish_shutdown_complete :
      InfrastructureLifecycle W → InfrastructureLifecycle W × Outcome
  unfolding publish_state
  publish_shutdown_complete l = publish_state l InfrastructureState.shutdown_complete

  -- CanActivate and ShouldTerminate.
  unfoldable pub activation_permitted : InfrastructureLifecycle W → InfrastructureLifecycle W × Bool
  unfolding read_state
  activation_permitted l = let (l', s) = read_state l in (l', can_activate s)

  unfoldable pub termination_requested :
      InfrastructureLifecycle W → InfrastructureLifecycle W × Bool
  unfolding read_state
  termination_requested l = let (l', s) = read_state l in (l', should_terminate s)
