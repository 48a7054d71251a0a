-- ===== src/Shutdown/Coordinator/Agreement.antt =====
-- The two implementations of a topology's shutdown agree.
use edp_threading.Base.{
  ℕ, zero, suc, ◌+◌, ◌≡◌, refl, Bool, false, List, [], ◌∷◌, arith, inl, inr, if◌then◌else◌,
}
use edp_threading.Types.{ThreadingShutdownResult}
use edp_threading.Lifecycle.{Call, Platform, InfrastructureLifecycle, begin_shutdown}
use edp_threading.Lifecycle.Calls.{Outcome-cases}
use edp_threading.Owner.{ResourceKind, cease_all, all_quiescent, begin_owner_shutdown}
use edp_threading.Shutdown.Coordinator.{
  cancel_task_resources, stop_dedicated_threads, resources_quiescent, begin, is_execution_quiescent,
}

-- A topology with its Task resources before its Dedicated Threads.
abbrev pub grouped : ℕ → ℕ → List ResourceKind
grouped zero zero = []
grouped zero (suc threads) = ResourceKind.dedicated_thread ∷ grouped zero threads
grouped (suc tasks) threads = ResourceKind.task_resource ∷ grouped tasks threads

module _ {W : Type 0} (platform : Platform W) where
  cease_all-threads :
      (threads i : ℕ) (w : W)
      → cease_all platform (grouped zero threads) i w ≡ stop_dedicated_threads platform threads i w
  unfolding cease_all stop_dedicated_threads
  cease_all-threads zero i w = refl
  cease_all-threads (suc threads) i w =
      cease_all-threads threads (i + 1) (platform (Call.request_stop i) w).0

  cease_all-grouped :
      (tasks threads i : ℕ) (w : W)
      → cease_all platform (grouped tasks threads) i w
        ≡ stop_dedicated_threads platform threads
            (i + tasks)
            (cancel_task_resources platform tasks i w).0
  unfolding cease_all cancel_task_resources
  cease_all-grouped zero threads i w =
      let e : i + 0 ≡ i = omega arith in rw e (cease_all-threads threads i w)
  cease_all-grouped (suc tasks) threads i w =
      let e : i + suc tasks ≡ i + 1 + tasks = omega arith in
      rw e (
        cease_all-grouped tasks threads (i + 1) (platform (Call.begin_shutdown_cancellation i) w).0)

  begin-by_result :
      (tasks threads : ℕ) (l : InfrastructureLifecycle W) (result : ThreadingShutdownResult)
      → (begin_shutdown platform l).1 ≡ result
      → begin platform tasks threads l ≡ begin_owner_shutdown platform (grouped tasks threads) l
  unfolding begin begin_owner_shutdown
  begin-by_result tasks threads l ThreadingShutdownResult.accepted e =
      rw (e, cease_all-grouped tasks threads 0 (begin_shutdown platform l).0.world)
        (let zero_first : 0 + tasks ≡ tasks = omega arith in rw zero_first refl)
  begin-by_result tasks threads l ThreadingShutdownResult.already_shutting_down e = rw e refl
  begin-by_result tasks threads l ThreadingShutdownResult.already_completed e = rw e refl
  begin-by_result tasks threads l ThreadingShutdownResult.not_started e = rw e refl

  all_quiescent-threads :
      (threads i : ℕ) (w : W)
      → all_quiescent platform (grouped zero threads) i w ≡ resources_quiescent platform threads i w
  unfolding all_quiescent resources_quiescent
  all_quiescent-threads zero i w = refl
  all_quiescent-threads (suc threads) i w =
      let (at, answer) = platform (Call.is_execution_quiescent i) w in
      elim (Outcome-cases answer) [
        | inl quiet ↦ rw (resources_quiescent, quiet) (all_quiescent-threads threads (i + 1) at)
        | inr (n, busy) ↦ rw (resources_quiescent, busy) refl
      ]

  -- The traversal of the Task resources, and then that of the Dedicated Threads.
  abbrev both_quiescent : ℕ → ℕ → ℕ → W → W × Bool
  both_quiescent tasks threads i w =
      let (w', quiet) = resources_quiescent platform tasks i w in
      if quiet then resources_quiescent platform threads (i + tasks) w' else (w', false)

  all_quiescent-grouped :
      (tasks threads i : ℕ) (w : W)
      → all_quiescent platform (grouped tasks threads) i w ≡ both_quiescent tasks threads i w
  unfolding all_quiescent resources_quiescent
  all_quiescent-grouped zero threads i w =
      let e : i + 0 ≡ i = omega arith in rw e (all_quiescent-threads threads i w)
  all_quiescent-grouped (suc tasks) threads i w =
      let e : i + suc tasks ≡ i + 1 + tasks = omega arith in
      let (at, answer) = platform (Call.is_execution_quiescent i) w in
      elim (Outcome-cases answer) [
        | inl quiet ↦
            rw (resources_quiescent, quiet, e) (all_quiescent-grouped tasks threads (i + 1) at)
        | inr (n, busy) ↦ rw (resources_quiescent, busy) refl
      ]

  -- The shutdown coordinator and the topology's owner agree, on every platform, for a topology
  -- with its Task resources before its Dedicated Threads: Begin and BeginShutdown leave the
  -- same lifecycle and give the same answer, and the two IsExecutionQuiescent leave the same
  -- world and give the same answer.
  pub begin-begin_owner_shutdown :
      (tasks threads : ℕ) (l : InfrastructureLifecycle W) (w : W)
      → (begin platform tasks threads l ≡ begin_owner_shutdown platform (grouped tasks threads) l)
        × (is_execution_quiescent platform tasks threads w
            ≡ all_quiescent platform (grouped tasks threads) 0 w)
  unfolding is_execution_quiescent
  begin-begin_owner_shutdown tasks threads l w =
      let zero_first : 0 + tasks ≡ tasks = omega arith in
      (
        begin-by_result tasks threads l (begin_shutdown platform l).1 refl,
        rw (all_quiescent-grouped tasks threads 0 w, zero_first) refl,
      )
