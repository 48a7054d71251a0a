-- ===== src/Examples/Lifecycles.antt =====
-- The theorems on the lifecycle and on the owner, applied to a platform whose resource 1 does not
-- start, and to one where every call succeeds.
use edp_threading.Base.{ℕ, ◌+◌, ◌==◌, ◌≡◌, refl, true, false, List, [], ◌∷◌, if◌then◌else◌}
use edp_threading.Lifecycle.{
  InfrastructureState, Outcome, Call, Platform, InfrastructureLifecycle, start, read_state,
  should_terminate, can_activate,
}
use edp_threading.Lifecycle.Start.{StartsIn, start_lem}
use edp_threading.Owner.{
  ResourceKind, finalize_shutdown, finalize_in, finalize_quiescent, finalize_all, destroy_joined,
  all_quiescent, publish_completion,
}
use edp_threading.Owner.Finalization.{EndsWith, completion_calls, finalize_shutdown-EndsWith}
use edp_threading.Owner.Transitions.{
  Operation, operate, run, is_edge, operate-is_edge, termination_is_final,
}

-- The world counts the calls.
abbrev unreliable : Platform ℕ
unreliable (Call.start_infrastructure i) w =
    (w + 1, if i == 1 then Outcome.failed 4 else Outcome.succeeded)
unreliable _ w = (w + 1, Outcome.succeeded)

abbrev reliable : Platform ℕ
reliable _ w = (w + 1, Outcome.succeeded)

abbrev at : InfrastructureState → InfrastructureLifecycle ℕ
at s = record { state = s; world = 0 }

abbrev kinds : List ResourceKind
kinds = ResourceKind.task_resource ∷ ResourceKind.dedicated_thread ∷ []

start_lem_example :
    StartsIn unreliable 3
      (at InfrastructureState.initialized)
      InfrastructureState.initialized
      (start unreliable 3 (at InfrastructureState.initialized))
start_lem_example = start_lem unreliable 3 (at InfrastructureState.initialized)

finalize_shutdown-EndsWith_example :
    (InfrastructureState.shutting_down ≡ InfrastructureState.shutting_down)
    × EndsWith reliable
        (read_state reliable (at InfrastructureState.shutting_down)).0.world
        (completion_calls reliable kinds)
        (finalize_shutdown reliable kinds (at InfrastructureState.shutting_down)).0
unfolding finalize_shutdown finalize_in finalize_quiescent finalize_all destroy_joined all_quiescent
    publish_completion read_state
finalize_shutdown-EndsWith_example =
    finalize_shutdown-EndsWith reliable kinds (at InfrastructureState.shutting_down) refl

operate-is_edge_example :
    is_edge InfrastructureState.initialized
      (operate unreliable kinds Operation.starts (at InfrastructureState.initialized)).state
    ≡ true
operate-is_edge_example =
    operate-is_edge unreliable kinds Operation.starts (at InfrastructureState.initialized)

abbrev history : List Operation
history = Operation.starts ∷ Operation.begins_shutdown ∷ Operation.finalizes_shutdown ∷ []

termination_is_final_example :
    (should_terminate (run reliable kinds history (at InfrastructureState.shutting_down)).state
      ≡ true)
    × (can_activate (run reliable kinds history (at InfrastructureState.shutting_down)).state
        ≡ false)
termination_is_final_example =
    termination_is_final reliable kinds history (at InfrastructureState.shutting_down) refl
