-- ===== src/Runtime/Fairness.antt =====
-- The scheduling pass ends, grants in FIFO order, and leaves no Worker idle while a Task waits.
pub mod Keeping
use edp_threading.Base.{
  ℕ, zero, suc, ◌≤◌, ◌<◌, ◌≡◌, ◌⊎◌, refl, ap, true, false, Option, none, some, List, [], ◌∷◌, ◌++◌,
  length, inl, inr, arith,
}
use edp_threading.Topology.{Topology}
use edp_threading.Task.Record.{invalid_context}
use edp_threading.Lifecycle.{Outcome}
use edp_threading.Worker.{Workers, is_free, try_claim_specific, try_claim_available}
use edp_threading.Worker.Lease.{
  ClaimsSpecific, ClaimsLowest, try_claim_specific_lem, try_claim_available_lem,
}
use edp_threading.Facility.Core.{
  TaskFacilityCore, TaskWorkerClaimResult, queued_tasks, claim_next_for_worker,
}
use edp_threading.Facility.Invariant.{Inv}
use edp_threading.Facility.Grant.{Claims, claim_lem}
use edp_threading.Facility.Counting.{queued_tasks_lem, distinct-length-le}
use edp_threading.Runtime.{
  Router, TaskFacilityRuntime, Turn, Scheduled, claim_current, claim_other, claim_worker,
  wake_worker, granted_turn, woken_turn, leased_turn, turn_on, schedule_turn, schedule_loop,
  schedule_available_workers,
}

module _ {W : Type 0} (t : Topology) (waiter_capacity : ℕ) (router : Router W) where
  -- A Worker's context fits the context index type.
  abbrev pub Fits : Option ℕ → Type 0
  Fits none = Unit {0}
  Fits (some context) = context ≤ invalid_context t

  free_fits : (w : Workers t) (a : ℕ) → is_free t w a ≡ true → a ≤ invalid_context t
  free_fits w a h = ground (arith, t.workers_fit, t.index.le-invalid t.contexts)

  -- A claim of a Worker gives one that fits, or finds none free.
  abbrev pub ClaimsWorker : Workers t × Option ℕ → Type 0
  ClaimsWorker (workers, none) = (b : ℕ) → is_free t workers b ≡ false
  ClaimsWorker (workers, some context) = context ≤ invalid_context t

  claim_lowest : (w : Workers t) → ClaimsWorker (try_claim_available t w)
  claim_lowest w = by_result (try_claim_available t w) (try_claim_available_lem t w)
    where
      by_result : (r : Workers t × Option ℕ) → ClaimsLowest t w r → ClaimsWorker r
      by_result (workers, none) (inl (a, free, e, lowest, rest)) = absurd (cc)
      by_result (workers, none) (inr (nobody, e)) = λ b. rw (ap (λ x. x.0) e) (nobody b)
      by_result (workers, some context) (inl (a, free, e, lowest, rest)) =
          let same : context ≡ a = cc in rw same (free_fits w a free)
      by_result (workers, some context) (inr (nobody, e)) = absurd (cc)

  claim_other_lem :
      (w : Workers t) (context : ℕ) (r : Workers t × Option ℕ)
      → ClaimsSpecific t w context r
      → ClaimsWorker (claim_other t waiter_capacity router r)
  claim_other_lem w context (workers, none) h = claim_lowest workers
  claim_other_lem w context (workers, some a) (inl (free, e, rest)) =
      let same : a ≡ context = cc in rw same (free_fits w context free)
  claim_other_lem w context (workers, some a) (inr (taken, e)) = absurd (cc)

  pub claim_worker_lem :
      (w : Workers t) (current : Option ℕ)
      → ClaimsWorker
          (claim_other t waiter_capacity router (claim_current t waiter_capacity router w current))
  claim_worker_lem w none = claim_lowest w
  claim_worker_lem w (some context) =
      claim_other_lem w context (try_claim_specific t w context)
        (try_claim_specific_lem t w context)

  -- How a pass may end: the queue is empty, no Worker is free, or a call has failed.
  abbrev pub Ends : List ℕ → Scheduled t waiter_capacity router → Type 0
  Ends q out =
      Inv t out.0.core q
      × ((q ≡ [])
          ⊎ ((b : ℕ) → is_free t out.0.workers b ≡ false)
          ⊎ ((e : ℕ) × (out.1 ≡ Outcome.failed e)))

  -- A turn ends the pass, or grants the oldest Task.
  abbrev pub Turns : List ℕ → Turn (Scheduled t waiter_capacity router) → Type 0
  Turns q (Turn.finished out) = Ends q out
  Turns [] (Turn.continued out) = ⊥
  Turns (i ∷ rest) (Turn.continued out) = Inv t out.0.core rest
  Turns q Turn.stuck = ⊥

  turn-granted :
      (rt : TaskFacilityRuntime t W) (q : List ℕ) (result : Outcome) (context n : ℕ)
      (claim : TaskFacilityCore t × TaskWorkerClaimResult)
      → length q ≡ suc n
      → Claims t rt.core context q claim
      → Turns q (granted_turn t waiter_capacity router rt result context claim)
  unfolding granted_turn
  turn-granted rt [] result context n claim some_queued at = absurd (omega arith)
  turn-granted rt (i ∷ rest) result context n (core, TaskWorkerClaimResult.queue_empty) more at =
      let e = at.is_binding in absurd (cc)
  turn-granted rt (i ∷ rest) result context n (core, TaskWorkerClaimResult.claimed b) more at =
      at.valid

  turn-woken :
      (rt : TaskFacilityRuntime t W) (q : List ℕ) (result : Outcome) (context n : ℕ)
      (woken : W × Outcome)
      → Inv t rt.core q
      → context ≤ invalid_context t
      → length q ≡ suc n
      → Turns q (woken_turn t waiter_capacity router rt result context woken)
  unfolding woken_turn
  turn-woken rt q result context n (w, Outcome.succeeded) v fits more =
      turn-granted (record rt { world = w }) q result context n
        (claim_next_for_worker t rt.core context) more (claim_lem t rt.core q context v fits)
  turn-woken rt q result context n (w, Outcome.failed e) v fits more = (v, inr (inr (e, refl)))

  nothing_queued : (q : List ℕ) → length q ≡ 0 → q ≡ []
  nothing_queued [] h = refl
  nothing_queued (i ∷ rest) h = absurd (omega arith)

  turn-leased :
      (rt : TaskFacilityRuntime t W) (q : List ℕ) (result : Outcome) (context : ℕ)
      (count : Option ℕ)
      → Inv t rt.core q
      → context ≤ invalid_context t
      → count ≡ some (length q)
      → Turns q (leased_turn t waiter_capacity router rt result context count)
  unfolding leased_turn
  turn-leased rt q result context none v fits e = absurd (cc)
  turn-leased rt q result context (some zero) v fits e =
      let none_left : length q ≡ 0 = cc in (v, inl (nothing_queued q none_left))
  turn-leased rt q result context (some (suc n)) v fits e =
      let more : length q ≡ suc n = cc in
      turn-woken rt q result context n (wake_worker t waiter_capacity router context rt.world) v
        fits more

  turn-on :
      (rt : TaskFacilityRuntime t W) (q : List ℕ) (result : Outcome)
      (claimed : Workers t × Option ℕ)
      → Inv t rt.core q
      → ClaimsWorker claimed
      → Turns q (turn_on t waiter_capacity router rt result claimed)
  unfolding turn_on
  turn-on rt q result (workers, none) v nobody = (v, inr (inl nobody))
  turn-on rt q result (workers, some context) v fits =
      turn-leased (record rt { workers = workers }) q result context (queued_tasks t rt.core) v fits
        (queued_tasks_lem t rt.core q v)

  pub turn_lem :
      (rt : TaskFacilityRuntime t W) (q : List ℕ) (result : Outcome)
      → Inv t rt.core q
      → Turns q (schedule_turn t waiter_capacity router rt result)
  unfolding schedule_turn
  turn_lem rt q result v =
      turn-on rt q result (claim_worker t waiter_capacity router rt.workers) v
        (claim_worker_lem rt.workers router.current_context_index)

  -- The pass ends; what it has granted is the front of the queue.
  abbrev pub Schedules : List ℕ → Option (Scheduled t waiter_capacity router) → Type 0
  Schedules q r =
      (out : Scheduled t waiter_capacity router) × (granted : List ℕ) × (rest : List ℕ) × (r
        ≡ some out)
      × (q ≡ granted ++ rest)
      × Ends rest out

  -- A turn, and the pass after it.
  abbrev After : ℕ → Type 0
  After fuel =
      (rt : TaskFacilityRuntime t W) (q : List ℕ) (result : Outcome)
      → Inv t rt.core q
      → length q < fuel
      → Schedules q (schedule_loop t waiter_capacity router fuel rt result)

  turn-Schedules :
      (fuel : ℕ) (rt : TaskFacilityRuntime t W) (q : List ℕ) (result : Outcome)
      (turn : Turn (Scheduled t waiter_capacity router))
      → After fuel
      → schedule_turn t waiter_capacity router rt result ≡ turn
      → Turns q turn
      → length q < suc fuel
      → Schedules q (schedule_loop t waiter_capacity router (suc fuel) rt result)
  unfolding schedule_loop
  turn-Schedules fuel rt q result (Turn.finished out) after e ends enough =
      (out, [], q, rw (e, schedule_loop) refl, refl, ends)
  turn-Schedules fuel rt [] result (Turn.continued more) after e ends enough = absurd ends
  turn-Schedules fuel rt (i ∷ rest) result (Turn.continued more) after e ends enough =
      let later = after more.0 rest more.1 ends (omega arith) in
      (
        later.0,
        i ∷ later.1,
        later.2,
        rw (e, schedule_loop) later.3,
        ap (λ xs. i ∷ xs) later.4,
        later.5,
      )
  turn-Schedules fuel rt q result Turn.stuck after e ends enough = absurd ends

  schedule_loop_lem : (fuel : ℕ) → After fuel
  schedule_loop_lem zero rt q result v enough = absurd (omega arith)
  schedule_loop_lem (suc fuel) rt q result v enough =
      turn-Schedules fuel rt q result (schedule_turn t waiter_capacity router rt result)
        (schedule_loop_lem fuel) refl (turn_lem rt q result v) enough

  -- On a well-formed core, ScheduleAvailableWorkers ends within as many turns as there are
  -- records and one more, for any router, leases and waiters. It takes Tasks off the front of
  -- the queue in order, leaves the core well formed with the rest of the queue, and ends only
  -- when no Task is queued, no Worker of the facility is free, or the answer is a failure.
  pub schedule_available_workers_lem :
      (rt : TaskFacilityRuntime t W) (q : List ℕ)
      → Inv t rt.core q
      → Schedules q (schedule_available_workers t waiter_capacity router rt)
  unfolding schedule_available_workers
  schedule_available_workers_lem rt q v =
      let short = distinct-length-le t.records q v.distinct v.members in
      schedule_loop_lem (suc t.records) rt q Outcome.succeeded v (omega arith)
