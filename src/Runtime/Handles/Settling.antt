-- ===== src/Runtime/Handles/Settling.antt =====
-- src/threading/detail/TaskFacilityRuntime.hpp: a cancelled Task neither waits for a Worker nor runs
-- unasked.
use edp_threading.Base.{
  ℕ, ◌<◌, ◌≡◌, ◌≢◌, ◌⊎◌, refl, ap, Bool, true, false, ◌||◌, List, without, Bool-cases, inl, inr,
  arith, =?_refl,
}
use edp_threading.Topology.{Topology}
use edp_threading.Task.Control.{TaskOperationalState, state, phase}
use edp_threading.Facility.Core.{
  TaskFacilityCore, TaskCancellationCoreResult, binding, is_current_incarnation, cancel,
  execution_context_for,
}
use edp_threading.Facility.Invariant.{Inv}
use edp_threading.Facility.Cancellation.{CancelsIn, cancel_lem}
use edp_threading.Runtime.{Router, TaskFacilityRuntime}
use edp_threading.Runtime.Completion.{Mutex}
use edp_threading.Types.{TaskCancelResult}
use edp_threading.Facility.Core.{execution_context_for}
use edp_threading.Runtime.Completion.{reclaim_if_quiescent}
use edp_threading.Runtime.Handles.{notify_cancelled, cancel_locked, cancel_task}
use edp_threading.Runtime.Handles.Laws.{MayReclaim, reclaim_if_quiescent-MayReclaim}
use edp_threading.Runtime.Handles.Frame.{notify_cancelled-core}

-- The state of a Task that neither waits for a Worker nor runs without having been asked to stop.
abbrev pub settled : TaskOperationalState → Bool
settled TaskOperationalState.queued = false
settled TaskOperationalState.running = false
settled _ = true

module _ (t : Topology) where
  -- A record that is free, or whose Task is settled.
  abbrev pub is_settled : TaskFacilityCore t → ℕ → Bool
  is_settled c i = t.availability.is_set c.availability i || settled (state (c.records i).control)

  -- The core is well formed, and one record is settled; the others are as settled as they were.
  abbrev pub SettlesAt : TaskFacilityCore t → ℕ → TaskFacilityCore t → Type 0
  SettlesAt c i d =
      ((q : List ℕ) × Inv t d q)
      × (is_settled d i ≡ true)
      × ((j : ℕ) → i ≢ j → is_settled d j ≡ is_settled c j)

  unchanged :
      (c : TaskFacilityCore t) (q : List ℕ) (i : ℕ) (d : TaskFacilityCore t)
      → Inv t c q
      → d ≡ c
      → is_settled c i ≡ true
      → SettlesAt c i d
  unchanged c q i d v e on = rw e ((q, v), on, λ j ne. refl)

  cancel_in-SettlesAt :
      (c : TaskFacilityCore t) (q : List ℕ) (i : ℕ) (s : TaskOperationalState)
      (r : TaskFacilityCore t × TaskCancellationCoreResult)
      → Inv t c q
      → state (c.records i).control ≡ s
      → CancelsIn t c q i s r
      → SettlesAt c i r.0
  cancel_in-SettlesAt c q i TaskOperationalState.queued r v e (at, answer) = (
    (without i q, at.valid),
    ground (arith, at.is_cancelled),
    λ j ne. rw (at.availability, (at.others j ne).1) refl,
  )
  cancel_in-SettlesAt c q i TaskOperationalState.running r v e (at, answer) = (
    (q, at.valid),
    ground (arith, at.has_state),
    λ j ne. rw (at.availability, at.others j ne) refl,
  )
  cancel_in-SettlesAt c q i TaskOperationalState.running_cancel_requested r v e at =
      unchanged c q i r.0 v (ap (λ x. x.0) at) (ground (arith, e))
  cancel_in-SettlesAt c q i TaskOperationalState.completed r v e at =
      unchanged c q i r.0 v (ap (λ x. x.0) at) (ground (arith, e))
  cancel_in-SettlesAt c q i TaskOperationalState.cancelled r v e at =
      unchanged c q i r.0 v (ap (λ x. x.0) at) (ground (arith, e))
  cancel_in-SettlesAt c q i TaskOperationalState.unnamed r v e at =
      unchanged c q i r.0 v (ap (λ x. x.0) at) (ground (arith, e))

  pub cancel-SettlesAt :
      (c : TaskFacilityCore t) (q : List ℕ) (i : ℕ)
      → Inv t c q
      → i < t.records
      → t.availability.is_set c.availability i ≡ false
      → SettlesAt c i (cancel t c i (phase (c.records i).control)).0
  unfolding is_current_incarnation
  cancel-SettlesAt c q i v below taken =
      elim (cancel_lem t c q i v below taken (phase (c.records i).control)) [
        | inl (stale, same) ↦ absurd (ground (arith, =?_refl (phase (c.records i).control)))
        | inr (current, at) ↦
            cancel_in-SettlesAt c q i (state (c.records i).control)
              (cancel t c i (phase (c.records i).control)) v refl at
      ]

  settled_MayReclaim :
      (c d : TaskFacilityCore t) (q : List ℕ) (i : ℕ)
      → Inv t c q
      → is_settled c i ≡ true
      → MayReclaim t c q i d
      → ((r : List ℕ) × Inv t d r) × (is_settled d i ≡ true)
  settled_MayReclaim c d q i v on (inl same) = rw same ((q, v), on)
  settled_MayReclaim c d q i v on (inr at) = ((q, at.valid), rw at.is_available refl)

module _ {W : Type 0} (t : Topology) (waiter_capacity : ℕ) (router : Router W)
    (mutex : Mutex W) where
  -- What Cancel does to a Task.
  abbrev pub CancelsTask :
      TaskFacilityRuntime t W → ℕ → TaskFacilityRuntime t W × TaskCancelResult → Type 0
  CancelsTask rt i out =
      (((mutex.acquire rt.world).1 ≡ false)
        × (out ≡ (
          record rt { world = (mutex.acquire rt.world).0 },
          TaskCancelResult.already_finished,
        )))
      ⊎ (((mutex.acquire rt.world).1 ≡ true)
          × ((q : List ℕ) × Inv t out.0.core q)
          × (is_settled t out.0.core i ≡ true))

  -- Cancel of an allocated Task of a well-formed core, by its current binding, answers
  -- AlreadyFinished without the lock and then changes nothing. With it, the core is well
  -- formed, and the Task neither waits for a Worker nor runs without having been asked to
  -- stop, whether the wakes and the reclamation that follow succeed or not.
  pub cancel_task_lem :
      (rt : TaskFacilityRuntime t W) (q : List ℕ) (i : ℕ)
      → Inv t rt.core q
      → i < t.records
      → t.availability.is_set rt.core.availability i ≡ false
      → CancelsTask rt i (cancel_task t waiter_capacity router mutex rt (binding t rt.core i))
  unfolding cancel_task cancel_locked
  cancel_task_lem rt q i v below taken = elim (Bool-cases (mutex.acquire rt.world).1) [
    | inr lost ↦ inl (lost, rw (lost, cancel_task) refl)
    | inl got ↦
        let p = phase (rt.core.records i).control in
        let r = cancel t rt.core i p in
        let start : TaskFacilityRuntime t W = record rt {
          core = r.0;
          world = (mutex.acquire rt.world).0;
        } in
        let running = execution_context_for t rt.core i p in
        let b = binding t rt.core i in
        let notified = notify_cancelled t waiter_capacity router mutex start b r.1 running in
        let same : notified.core ≡ r.0 =
          notify_cancelled-core t waiter_capacity router mutex start b r.1 running in
        let after = cancel-SettlesAt t rt.core q i v below taken in
        let valid : Inv t notified.core after.0.0 = rw same after.0.1 in
        let on : is_settled t notified.core i ≡ true = rw same after.1 in
        let out =
          settled_MayReclaim t notified.core
            (reclaim_if_quiescent t waiter_capacity router mutex notified b).0.core after.0.0 i
            valid on
            (reclaim_if_quiescent-MayReclaim t waiter_capacity router mutex notified after.0.0 b
              valid below) in
        inr (got, rw (got, cancel_task) out.0, rw (got, cancel_task) out.1)
  ]
