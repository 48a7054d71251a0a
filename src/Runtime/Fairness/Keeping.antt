-- ===== src/Runtime/Fairness/Keeping.antt =====
-- A scheduling pass changes neither who owns a Task nor which Task a record holds.
use edp_threading.Base.{
  ℕ, zero, suc, ◌≤◌, ◌≡◌, ◌∙◌, refl, ap, Option, none, some, List, [], ◌∷◌, ◌==◌, Bool-cases, inl,
  inr, arith, ==_iff, subst,
}
use edp_threading.Topology.{Topology}
use edp_threading.Task.Control.{has_owner, phase}
use edp_threading.Task.Record.{invalid_context}
use edp_threading.Lifecycle.{Outcome}
use edp_threading.Worker.{Workers}
use edp_threading.Facility.Core.{
  TaskFacilityCore, TaskWorkerClaimResult, queued_tasks, claim_next_for_worker,
}
use edp_threading.Facility.Invariant.{Inv}
use edp_threading.Facility.Grant.{Claims, claim_lem}
use edp_threading.Runtime.{
  Router, TaskFacilityRuntime, Turn, Scheduled, claim_worker, wake_worker, granted_turn, woken_turn,
  leased_turn, turn_on, schedule_turn, schedule_loop, schedule_available_workers,
}
use edp_threading.Runtime.Fairness.{ClaimsWorker, claim_worker_lem, Turns, turn_lem}

-- The same Tasks, with the same owners.
abbrev pub Keeps : {t : Topology} → TaskFacilityCore t → TaskFacilityCore t → Type 0
Keeps c d =
    (d.availability ≡ c.availability)
    × ((j : ℕ)
        → (has_owner (d.records j).control ≡ has_owner (c.records j).control)
          × (phase (d.records j).control ≡ phase (c.records j).control))

module _ {W : Type 0} (t : Topology) (waiter_capacity : ℕ) (router : Router W) where
  Keeps-refl : (c : TaskFacilityCore t) → Keeps c c
  Keeps-refl c = (refl, λ j. (refl, refl))

  Keeps-trans : (b c d : TaskFacilityCore t) → Keeps b c → Keeps c d → Keeps b d
  Keeps-trans b c d first second =
      (second.0 ∙ first.0, λ j. ((second.1 j).0 ∙ (first.1 j).0, (second.1 j).1 ∙ (first.1 j).1))

  claim-Keeps :
      (c : TaskFacilityCore t) (q : List ℕ) (context : ℕ)
      (r : TaskFacilityCore t × TaskWorkerClaimResult)
      → Claims t c context q r
      → Keeps c r.0
  claim-Keeps c [] context r e = rw (ap (λ x. x.0) e) (Keeps-refl c)
  claim-Keeps c (i ∷ rest) context r at = (
    at.availability,
    λ j. elim (Bool-cases (i == j)) [
      | inl here ↦ rw (← (==_iff i j).0 here) (at.keeps_owner, at.keeps_phase)
      | inr other ↦
          let same = at.others j (λ e. ground arith) in (ap has_owner same.1, ap phase same.1)
    ],
  )

  -- A turn keeps the Tasks.
  abbrev KeepsTurn : TaskFacilityCore t → Turn (Scheduled t waiter_capacity router) → Type 0
  KeepsTurn c (Turn.finished out) = Keeps c out.0.core
  KeepsTurn c (Turn.continued out) = Keeps c out.0.core
  KeepsTurn c Turn.stuck = Unit {0}

  granted-Keeps :
      (rt : TaskFacilityRuntime t W) (result : Outcome) (context : ℕ)
      (claim : TaskFacilityCore t × TaskWorkerClaimResult)
      → Keeps rt.core claim.0
      → KeepsTurn rt.core (granted_turn t waiter_capacity router rt result context claim)
  unfolding granted_turn
  granted-Keeps rt result context (core, TaskWorkerClaimResult.queue_empty) keeps = keeps
  granted-Keeps rt result context (core, TaskWorkerClaimResult.claimed b) keeps = keeps

  woken-Keeps :
      (rt : TaskFacilityRuntime t W) (q : List ℕ) (result : Outcome) (context : ℕ)
      (woken : W × Outcome)
      → Inv t rt.core q
      → context ≤ invalid_context t
      → KeepsTurn rt.core (woken_turn t waiter_capacity router rt result context woken)
  unfolding woken_turn
  woken-Keeps rt q result context (w, Outcome.failed e) v fits = Keeps-refl rt.core
  woken-Keeps rt q result context (w, Outcome.succeeded) v fits =
      granted-Keeps (record rt { world = w }) result context
        (claim_next_for_worker t rt.core context)
        (claim-Keeps rt.core q context (claim_next_for_worker t rt.core context)
          (claim_lem t rt.core q context v fits))

  leased-Keeps :
      (rt : TaskFacilityRuntime t W) (q : List ℕ) (result : Outcome) (context : ℕ)
      (count : Option ℕ)
      → Inv t rt.core q
      → context ≤ invalid_context t
      → KeepsTurn rt.core (leased_turn t waiter_capacity router rt result context count)
  unfolding leased_turn
  leased-Keeps rt q result context none v fits = tt
  leased-Keeps rt q result context (some zero) v fits = Keeps-refl rt.core
  leased-Keeps rt q result context (some (suc n)) v fits =
      woken-Keeps rt q result context (wake_worker t waiter_capacity router context rt.world) v fits

  on-Keeps :
      (rt : TaskFacilityRuntime t W) (q : List ℕ) (result : Outcome)
      (claimed : Workers t × Option ℕ)
      → Inv t rt.core q
      → ClaimsWorker t waiter_capacity router claimed
      → KeepsTurn rt.core (turn_on t waiter_capacity router rt result claimed)
  unfolding turn_on
  on-Keeps rt q result (workers, none) v nobody = Keeps-refl rt.core
  on-Keeps rt q result (workers, some context) v fits =
      leased-Keeps (record rt { workers = workers }) q result context (queued_tasks t rt.core) v
        fits

  turn-Keeps :
      (rt : TaskFacilityRuntime t W) (q : List ℕ) (result : Outcome)
      → Inv t rt.core q
      → KeepsTurn rt.core (schedule_turn t waiter_capacity router rt result)
  unfolding schedule_turn
  turn-Keeps rt q result v =
      on-Keeps rt q result (claim_worker t waiter_capacity router rt.workers) v
        (claim_worker_lem t waiter_capacity router rt.workers router.current_context_index)

  -- The result of a loop that has ended keeps the Tasks.
  abbrev KeepsOut : TaskFacilityCore t → Option (Scheduled t waiter_capacity router) → Type 0
  KeepsOut c none = Unit {0}
  KeepsOut c (some out) = Keeps c out.0.core

  after-KeepsOut :
      (c d : TaskFacilityCore t) (r : Option (Scheduled t waiter_capacity router))
      → Keeps c d
      → KeepsOut d r
      → KeepsOut c r
  after-KeepsOut c d none first second = tt
  after-KeepsOut c d (some out) first second = Keeps-trans c d out.0.core first second

  abbrev KeepsFrom : ℕ → Type 0
  KeepsFrom fuel =
      (rt : TaskFacilityRuntime t W) (q : List ℕ) (result : Outcome)
      → Inv t rt.core q
      → KeepsOut rt.core (schedule_loop t waiter_capacity router fuel rt result)

  turned-KeepsOut :
      (fuel : ℕ) (rt : TaskFacilityRuntime t W) (q : List ℕ) (result : Outcome)
      (turn : Turn (Scheduled t waiter_capacity router))
      → KeepsFrom fuel
      → schedule_turn t waiter_capacity router rt result ≡ turn
      → Turns t waiter_capacity router q turn
      → KeepsTurn rt.core turn
      → KeepsOut rt.core (schedule_loop t waiter_capacity router (suc fuel) rt result)
  unfolding schedule_loop
  turned-KeepsOut fuel rt q result (Turn.finished out) from e ends keeps =
      rw (e, schedule_loop) keeps
  turned-KeepsOut fuel rt [] result (Turn.continued more) from e ends keeps = absurd ends
  turned-KeepsOut fuel rt (i ∷ rest) result (Turn.continued more) from e ends keeps =
      rw (e, schedule_loop)
        (after-KeepsOut rt.core more.0.core
          (schedule_loop t waiter_capacity router fuel more.0 more.1) keeps
          (from more.0 rest more.1 ends))
  turned-KeepsOut fuel rt q result Turn.stuck from e ends keeps = absurd ends

  loop-KeepsOut : (fuel : ℕ) → KeepsFrom fuel
  unfolding schedule_loop
  loop-KeepsOut zero rt q result v = tt
  loop-KeepsOut (suc fuel) rt q result v =
      turned-KeepsOut fuel rt q result (schedule_turn t waiter_capacity router rt result)
        (loop-KeepsOut fuel) refl (turn_lem t waiter_capacity router rt q result v)
        (turn-Keeps rt q result v)

  -- What a scheduling pass that has ended keeps.
  pub schedule_available_workers-Keeps :
      (rt : TaskFacilityRuntime t W) (q : List ℕ) (out : Scheduled t waiter_capacity router)
      → Inv t rt.core q
      → schedule_available_workers t waiter_capacity router rt ≡ some out
      → Keeps rt.core out.0.core
  unfolding schedule_available_workers
  schedule_available_workers-Keeps rt q out v e =
      subst (KeepsOut rt.core) e (loop-KeepsOut (suc t.records) rt q Outcome.succeeded v)
