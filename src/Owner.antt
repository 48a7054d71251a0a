-- ===== src/Owner.antt =====
-- The terminal shutdown of a topology: src/threading/detail/StaticTopologyOwner.hpp, over the
-- traversals of src/threading/detail/StaticTopologyResourceStorage.hpp. A topology is the list of
-- its resources' kinds, in declaration order.
pub mod Transitions
pub mod Finalization
use edp_threading.Base.{ℕ, ◌+◌, Bool, true, false, List, [], ◌∷◌, if◌then◌else◌}
use edp_threading.Types.{ThreadingShutdownResult, ThreadingFinalizationResult}
use edp_threading.Lifecycle.{
  InfrastructureState, Outcome, is_success, Call, Platform, InfrastructureLifecycle, read_state,
  begin_shutdown, publish_shutdown_complete,
}

pub data ResourceKind : Type 0 where
  task_resource dedicated_thread : ResourceKind

-- The call by which a resource is asked to cease.
abbrev pub cease : ResourceKind → ℕ → Call
cease ResourceKind.task_resource i = Call.begin_shutdown_cancellation i
cease ResourceKind.dedicated_thread i = Call.request_stop i

abbrev pub all_success : Outcome → Outcome → Outcome → ThreadingFinalizationResult → Bool
all_success Outcome.succeeded Outcome.succeeded Outcome.succeeded
      ThreadingFinalizationResult.completed =
    true
all_success _ _ _ _ = false

module _ {W : Type 0} (platform : Platform W) where
  -- StaticTopologyResourceStorage::BeginShutdown, from resource `i` on; its result is not used.
  unfoldable pub cease_all : List ResourceKind → ℕ → W → W
  cease_all [] i w = w
  cease_all (k ∷ ks) i w = cease_all ks (i + 1) (platform (cease k i) w).0

  -- StaticTopologyResourceStorage::IsExecutionQuiescent: the first resource that is not quiescent
  -- ends the traversal.
  unfoldable pub all_quiescent : List ResourceKind → ℕ → W → W × Bool
  all_quiescent [] i w = (w, true)
  all_quiescent (k ∷ ks) i w =
      let (w', o) = platform (Call.is_execution_quiescent i) w in
      let rest = all_quiescent ks (i + 1) w' in
      elim o [ Outcome.succeeded ↦ rest | Outcome.failed e ↦ (w', false) ]

  -- A resource is destroyed only if it was joined.
  unfoldable pub destroy_joined : ℕ → Outcome → W → W × Outcome
  destroy_joined i Outcome.succeeded w = platform (Call.destroy_infrastructure i) w
  destroy_joined i (Outcome.failed e) w = (w, Outcome.failed e)

  -- StaticTopologyResourceStorage::FinalizeShutdown: every resource is visited, whatever failed.
  unfoldable pub finalize_all : List ResourceKind → ℕ → W → W × ThreadingFinalizationResult
  unfolding destroy_joined
  finalize_all [] i w = (w, ThreadingFinalizationResult.completed)
  finalize_all (k ∷ ks) i w =
      let (w1, wake) = platform (Call.request_termination i) w in
      let (w2, join) = platform (Call.join_infrastructure i) w1 in
      let (w3, destroy) = destroy_joined i join w2 in
      let (w4, tail) = finalize_all ks (i + 1) w3 in
      (
        w4,
        if all_success wake join destroy tail
            then ThreadingFinalizationResult.completed
            else ThreadingFinalizationResult.provider_failure,
      )

  -- StaticTopologyOwner::BeginShutdown.
  unfoldable pub begin_owner_shutdown :
      List ResourceKind
      → InfrastructureLifecycle W
      → InfrastructureLifecycle W × ThreadingShutdownResult
  unfolding begin_shutdown cease_all
  begin_owner_shutdown ks l =
      let (l', result) = begin_shutdown platform l in
      elim result [
        | ThreadingShutdownResult.accepted ↦
            (record l' { world = cease_all ks 0 l'.world }, ThreadingShutdownResult.accepted)
        | other ↦ (l', other)
      ]

  abbrev pub Finalized : Type 0
  Finalized = InfrastructureLifecycle W × ThreadingFinalizationResult

  -- The end of FinalizeShutdown, when every resource is down.
  unfoldable pub publish_completion : InfrastructureLifecycle W → Finalized
  unfolding publish_shutdown_complete
  publish_completion l =
      let (l1, released) = publish_shutdown_complete platform l in
      if is_success released
      then (let (w, woken) = platform Call.wake_shutdown_waiters l1.world in
          (
            record l1 { world = w },
            if is_success woken
                then ThreadingFinalizationResult.completed
                else ThreadingFinalizationResult.provider_failure,
          ))
      else (l1, ThreadingFinalizationResult.provider_failure)

  unfoldable pub finalize_quiescent : List ResourceKind → InfrastructureLifecycle W → Finalized
  unfolding finalize_all publish_completion
  finalize_quiescent ks l =
      let (w, result) = finalize_all ks 0 l.world in
      elim result [
        | ThreadingFinalizationResult.completed ↦ publish_completion (record l { world = w })
        | _ ↦ (record l { world = w }, ThreadingFinalizationResult.provider_failure)
      ]

  unfoldable pub finalize_in :
      List ResourceKind → InfrastructureLifecycle W → InfrastructureState → Finalized
  unfolding all_quiescent finalize_quiescent
  finalize_in ks l InfrastructureState.shutting_down =
      let (w, quiet) = all_quiescent ks 0 l.world in
      if quiet
      then finalize_quiescent ks (record l { world = w })
      else (record l { world = w }, ThreadingFinalizationResult.execution_not_quiescent)
  finalize_in ks l _ = (l, ThreadingFinalizationResult.not_shutting_down)

  -- StaticTopologyOwner::FinalizeShutdown.
  unfoldable pub finalize_shutdown : List ResourceKind → InfrastructureLifecycle W → Finalized
  unfolding read_state finalize_in
  finalize_shutdown ks l = let (l', s) = read_state platform l in finalize_in ks l' s
