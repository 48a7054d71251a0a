-- ===== src/Owner/Transitions.antt =====
-- The lifecycle state under any history of the owner's operations, whatever the platform answers.
use edp_threading.Base.{◌≡◌, Bool, true, false, List, [], ◌∷◌, length, arith}
use edp_threading.Lifecycle.{
  InfrastructureState, Platform, InfrastructureLifecycle, publish_state, roll_back, start,
  commit_initialization, should_terminate, can_activate,
}
use edp_threading.Owner.{ResourceKind, begin_owner_shutdown, finalize_shutdown}

-- The changes of state that the operations may make.
abbrev pub is_edge : InfrastructureState → InfrastructureState → Bool
is_edge InfrastructureState.uninitialized InfrastructureState.uninitialized = true
is_edge InfrastructureState.uninitialized InfrastructureState.initialized = true
is_edge InfrastructureState.initialized InfrastructureState.initialized = true
is_edge InfrastructureState.initialized InfrastructureState.started = true
is_edge InfrastructureState.initialized InfrastructureState.start_rollback = true
is_edge InfrastructureState.started InfrastructureState.started = true
is_edge InfrastructureState.started InfrastructureState.shutting_down = true
is_edge InfrastructureState.shutting_down InfrastructureState.shutting_down = true
is_edge InfrastructureState.shutting_down InfrastructureState.shutdown_complete = true
is_edge InfrastructureState.start_rollback InfrastructureState.start_rollback = true
is_edge InfrastructureState.shutdown_complete InfrastructureState.shutdown_complete = true
is_edge _ _ = false

-- An operation of the owner of a topology: the commit of its initialization, its start, and the
-- two halves of its shutdown.
pub data Operation : Type 0 where
  commits starts begins_shutdown finalizes_shutdown : Operation

module _ {W : Type 0} (platform : Platform W) (ks : List ResourceKind) where
  pub operate : Operation → InfrastructureLifecycle W → InfrastructureLifecycle W
  unfolding commit_initialization start begin_owner_shutdown finalize_shutdown
  operate Operation.commits l = (commit_initialization platform l).0
  operate Operation.starts l = (start platform (length ks) l).0
  operate Operation.begins_shutdown l = (begin_owner_shutdown platform ks l).0
  operate Operation.finalizes_shutdown l = (finalize_shutdown platform ks l).0

  -- Every one of the owner's operations (the commit of the initialization, the start, the
  -- begin and the end of the shutdown) either keeps the lifecycle state or makes one of the
  -- five changes: Uninitialized to Initialized, Initialized to Started or StartRollback,
  -- Started to ShuttingDown, ShuttingDown to ShutdownComplete, whatever the platform does.
  pub operate-is_edge :
      (op : Operation) (l : InfrastructureLifecycle W) → is_edge l.state (operate op l).state ≡ true
  unfolding operate publish_state roll_back
  operate-is_edge Operation.commits l = ground arith
  operate-is_edge Operation.starts l = ground arith
  operate-is_edge Operation.begins_shutdown l = ground arith
  operate-is_edge Operation.finalizes_shutdown l = ground arith

  pub run : List Operation → InfrastructureLifecycle W → InfrastructureLifecycle W
  run [] l = l
  run (op ∷ ops) l = run ops (operate op l)

  edge_keeps_termination :
      (s u : InfrastructureState)
      → is_edge s u ≡ true
      → should_terminate s ≡ true
      → (should_terminate u ≡ true) × (can_activate u ≡ false)
  edge_keeps_termination s u e h = ground arith

  -- Once managed contexts are told to terminate, every later sequence of the owner's
  -- operations leaves them told so, and never permits an activation again.
  pub termination_is_final :
      (ops : List Operation) (l : InfrastructureLifecycle W)
      → should_terminate l.state ≡ true
      → (should_terminate (run ops l).state ≡ true) × (can_activate (run ops l).state ≡ false)
  unfolding run
  termination_is_final [] l h = ground arith
  termination_is_final (op ∷ ops) l h =
      termination_is_final ops (operate op l)
        (edge_keeps_termination l.state (operate op l).state (operate-is_edge op l) h).0
