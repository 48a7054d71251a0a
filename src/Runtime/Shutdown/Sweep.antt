-- ===== src/Runtime/Shutdown/Sweep.antt =====
-- What the cancellation for a shutdown leaves of the Tasks.
use edp_threading.Base.{
  ℕ, ◌+◌, ◌<◌, ◌≡◌, ◌⊎◌, ◌∙◌, refl, sym, true, false, ◌&&◌, List, [], elem, ◌==◌, if◌then◌else◌,
  for_range_inv, Bool-cases, inl, inr, arith, ==_iff, ==_refl, ◌∷◌,
}
use mathlib.Core.Bool.{true≢false}
use edp_threading.Topology.{Topology}
use edp_threading.Types.{TaskState}
use edp_threading.Task.Control.{state, has_owner}
use edp_threading.Facility.Core.{
  TaskFacilityCore, TaskRecordBinding, binding, cancel, public_state, execution_context_for,
}
use edp_threading.Facility.Invariant.{Inv, RecordOk-IsQueued}
use edp_threading.Runtime.{Router, TaskFacilityRuntime}
use edp_threading.Runtime.Completion.{Mutex}
use edp_threading.Runtime.Handles.{is_accepted}
use edp_threading.Runtime.Handles.Settling.{is_settled, cancel-SettlesAt}
use edp_threading.Runtime.Handles.Frame.{wake_waiters_of-core, wake_context-core}
use edp_threading.Runtime.Shutdown.{
  is_queued, is_cancelled, is_executing, TaskFacilityShutdownCancellationResult,
  begin_shutdown_cancellation, Progress, notify_shutdown, cancel_visited, cancel_allocated,
  shutdown_locked,
}

module _ {W : Type 0} (t : Topology) (waiter_capacity : ℕ) (router : Router W)
    (mutex : Mutex W) where
  notify_shutdown-core :
      (rt : TaskFacilityRuntime t W) (b : TaskRecordBinding) (before after : TaskState)
      → (notify_shutdown t waiter_capacity router mutex rt b before after).0.core ≡ rt.core
  unfolding notify_shutdown
  notify_shutdown-core rt b before after =
      elim (Bool-cases (is_queued before && is_cancelled after)) [
        | inl withdrawn ↦ rw withdrawn (wake_waiters_of-core t waiter_capacity router mutex rt b)
        | inr other ↦ elim (Bool-cases (is_executing after)) [
          | inl running ↦
              rw (other, running)
                (wake_context-core t waiter_capacity router mutex rt
                  (execution_context_for t rt.core b.record_index b.phase))
          | inr ended ↦ rw (other, ended) refl
        ]
      ]

  cancel_visited-core :
      (b : TaskRecordBinding) (at : Progress t waiter_capacity router mutex)
      → (cancel_visited t waiter_capacity router mutex b at).0.core
        ≡ (cancel t at.0.core b.record_index b.phase).0
  unfolding cancel_visited
  cancel_visited-core b at =
      let r = cancel t at.0.core b.record_index b.phase in
      elim (Bool-cases (is_accepted r.1.result)) [
        | inl accepted ↦ rw accepted (
            notify_shutdown-core (record at.0 { core = r.0 }) b
              (public_state t at.0.core b.record_index b.phase)
              (public_state t r.0 b.record_index b.phase))
        | inr refused ↦ rw refused refl
      ]

  -- The first records are settled, and the core is well formed.
  abbrev Swept : ℕ → TaskFacilityCore t → Type 0
  Swept n c = ((q : List ℕ) × Inv t c q) × ((j : ℕ) → j < n → is_settled t c j ≡ true)

  visited-Swept :
      (n : ℕ) (at : Progress t waiter_capacity router mutex)
      → n < t.records
      → Swept n at.0.core
      → Swept
          (n + 1)
          (if t.availability.is_set at.0.core.availability n
            then at
            else cancel_visited t waiter_capacity router mutex (binding t at.0.core n) at).0.core
  visited-Swept n at below swept =
      let c = at.0.core in
      elim (Bool-cases (t.availability.is_set c.availability n)) [
        | inl free ↦ rw free (
          swept.0,
          λ j lt. elim (Bool-cases (n == j)) [
            | inl here ↦ rw (← (==_iff n j).0 here, free) refl
            | inr other ↦ swept.1 j (ground arith)
          ],
        )
        | inr taken ↦
            let after = cancel-SettlesAt t c swept.0.0 n swept.0.1 below taken in
            rw (taken, cancel_visited-core (binding t c n) at)
              (
                after.0,
                λ j lt. elim (Bool-cases (n == j)) [
                  | inl here ↦ rw (← (==_iff n j).0 here) after.1
                  | inr other ↦ after.2 j (ground arith) ∙ swept.1 j (ground arith)
                ],
              )
      ]

  -- What the cancellation for a shutdown leaves: a well-formed core with an empty queue, in which
  -- each record is free or holds a Task that does not run unasked.
  abbrev pub Quiesces : TaskFacilityCore t → Type 0
  Quiesces c = Inv t c [] × ((i : ℕ) → i < t.records → is_settled t c i ≡ true)

  -- A settled core has an empty queue.
  settled_queue :
      (c : TaskFacilityCore t) (q : List ℕ)
      → Inv t c q
      → ((i : ℕ) → i < t.records → is_settled t c i ≡ true)
      → Quiesces c
  settled_queue c [] v settles = (v, settles)
  settled_queue c (i ∷ rest) v settles =
      let here : elem i (i ∷ rest) ≡ true = rw (==_refl i) refl in
      let below = v.members i here in
      let queued =
        RecordOk-IsQueued (t.availability.is_set c.availability i) (state (c.records i).control)
          (has_owner (c.records i).control) (c.records i).payload (c.records i).operations
          (rw here at (v.ok i below).0) in
      absurd (true≢false (sym (settles i below) ∙ rw (queued.0, queued.1) refl))

  cancel_allocated-Quiesces :
      (rt : TaskFacilityRuntime t W) (q : List ℕ)
      → Inv t rt.core q
      → Quiesces (cancel_allocated t waiter_capacity router mutex rt).0.core
  unfolding cancel_allocated
  cancel_allocated-Quiesces rt q v =
      let swept =
        for_range_inv (λ n at. Swept n at.0.core)
          (λ i at.
            if t.availability.is_set at.0.core.availability i
            then at
            else cancel_visited t waiter_capacity router mutex (binding t at.0.core i) at)
          t.records 0 t.records (rt, false) (λ n at below swept. visited-Swept n at below swept)
          (omega arith) ((q, v), λ j lt. absurd (omega arith)) in
      settled_queue (cancel_allocated t waiter_capacity router mutex rt).0.core swept.0.0 swept.0.1
        swept.1

  -- What BeginShutdownCancellation does.
  abbrev pub ShutsDown :
      TaskFacilityRuntime t W
      → TaskFacilityRuntime t W × TaskFacilityShutdownCancellationResult
      → Type 0
  ShutsDown rt out =
      (((mutex.acquire rt.world).1 ≡ false)
        × (out ≡ (
          record rt { world = (mutex.acquire rt.world).0 },
          TaskFacilityShutdownCancellationResult.provider_failure,
        )))
      ⊎ (((mutex.acquire rt.world).1 ≡ true) × Quiesces out.0.core)

  -- BeginShutdownCancellation, on a runtime whose core is well formed, does one of two things.
  -- When the lock is refused it answers ProviderFailure and changes neither the core nor a
  -- registration. Otherwise, whether its wakes succeed or not, the core is well formed, no
  -- Task is queued, and every Task that is still Running has been asked to stop.
  pub begin_shutdown_cancellation_lem :
      (rt : TaskFacilityRuntime t W) (q : List ℕ)
      → Inv t rt.core q
      → ShutsDown rt (begin_shutdown_cancellation t waiter_capacity router mutex rt)
  unfolding begin_shutdown_cancellation shutdown_locked
  begin_shutdown_cancellation_lem rt q v = elim (Bool-cases (mutex.acquire rt.world).1) [
    | inr lost ↦ inl (lost, rw lost refl)
    | inl got ↦ inr (
      got,
      rw (got, begin_shutdown_cancellation)
          (cancel_allocated-Quiesces (record rt { world = (mutex.acquire rt.world).0 }) q v),
    )
  ]
