-- ===== src/Shutdown/Coordinator.antt =====
-- src/threading/detail/ShutdownCoordinator.hpp and src/threading/detail/ThreadingBootstrap.hpp: the
-- shutdown of a topology that is given as a tuple of Task resources and a tuple of Dedicated
-- Threads, and the lifecycle's gates. The resources of the two tuples are numbered one tuple after
-- the other.
pub mod Agreement
use edp_threading.Base.{ℕ, zero, suc, ◌+◌, Bool, true, false, not, ◌||◌, if◌then◌else◌}
use edp_threading.Types.{
  ThreadingShutdownResult, ThreadingInitializationResult, ThreadingStartResult, TaskDispatchStatus,
  ThreadStartResult,
}
use edp_threading.Lifecycle.{
  Outcome, is_success, Call, Platform, InfrastructureLifecycle, begin_shutdown,
  activation_permitted, commit_initialization, start,
}
use edp_threading.Runtime.Shutdown.{TaskFacilityShutdownCancellationResult}

abbrev pub is_provider_failure : TaskFacilityShutdownCancellationResult → Bool
is_provider_failure TaskFacilityShutdownCancellationResult.provider_failure = true
is_provider_failure TaskFacilityShutdownCancellationResult.applied = false

module _ {W : Type 0} (platform : Platform W) where
  -- CancelTaskResources, of as many resources from one on.
  unfoldable pub cancel_task_resources : ℕ → ℕ → W → W × TaskFacilityShutdownCancellationResult
  cancel_task_resources zero i w = (w, TaskFacilityShutdownCancellationResult.applied)
  cancel_task_resources (suc n) i w =
      let (w', result) = platform (Call.begin_shutdown_cancellation i) w in
      let (w'', tail) = cancel_task_resources n (i + 1) w' in
      (
        w'',
        if not (is_success result) || is_provider_failure tail
            then TaskFacilityShutdownCancellationResult.provider_failure
            else TaskFacilityShutdownCancellationResult.applied,
      )

  -- StopDedicatedThreads.
  unfoldable pub stop_dedicated_threads : ℕ → ℕ → W → W
  stop_dedicated_threads zero i w = w
  stop_dedicated_threads (suc n) i w =
      stop_dedicated_threads n (i + 1) (platform (Call.request_stop i) w).0

  -- TaskResourcesQuiescent, and DedicatedThreadsQuiescent: the first resource that is not quiescent
  -- ends the traversal.
  unfoldable pub resources_quiescent : ℕ → ℕ → W → W × Bool
  resources_quiescent zero i w = (w, true)
  resources_quiescent (suc n) i w =
      let (w', o) = platform (Call.is_execution_quiescent i) w in
      let rest = resources_quiescent n (i + 1) w' in
      elim o [ Outcome.succeeded ↦ rest | Outcome.failed e ↦ (w', false) ]

  -- Begin.
  unfoldable pub begin :
      ℕ → ℕ → InfrastructureLifecycle W → InfrastructureLifecycle W × ThreadingShutdownResult
  unfolding begin_shutdown cancel_task_resources stop_dedicated_threads
  begin tasks threads l =
      let (l', result) = begin_shutdown platform l in
      elim result [
        | ThreadingShutdownResult.accepted ↦ (
          record l' {
            world = stop_dedicated_threads threads tasks (cancel_task_resources tasks 0 l'.world).0;
          },
          ThreadingShutdownResult.accepted,
        )
        | other ↦ (l', other)
      ]

  -- IsExecutionQuiescent.
  unfoldable pub is_execution_quiescent : ℕ → ℕ → W → W × Bool
  unfolding resources_quiescent
  is_execution_quiescent tasks threads w =
      let (w', quiet) = resources_quiescent tasks 0 w in
      if quiet then resources_quiescent threads tasks w' else (w', false)

  -- ThreadingBootstrap::Dispatch, of a facility.
  unfoldable pub dispatch_when_active :
      (InfrastructureLifecycle W → InfrastructureLifecycle W × TaskDispatchStatus)
      → InfrastructureLifecycle W
      → InfrastructureLifecycle W × TaskDispatchStatus
  unfolding activation_permitted
  dispatch_when_active facility_dispatch l =
      let (l', active) = activation_permitted platform l in
      if active then facility_dispatch l' else (l', TaskDispatchStatus.shutting_down)

  -- ThreadingBootstrap::StartThread, of a Dedicated Thread.
  unfoldable pub start_thread :
      (InfrastructureLifecycle W → InfrastructureLifecycle W × ThreadStartResult)
      → InfrastructureLifecycle W
      → InfrastructureLifecycle W × ThreadStartResult
  unfolding activation_permitted
  start_thread thread_start l =
      let (l', active) = activation_permitted platform l in
      if active then thread_start l' else (l', ThreadStartResult.shutting_down)
