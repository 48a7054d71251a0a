-- ===== src/Facility/Counting.antt =====
-- What TaskFacilityCore::QueuedTasks, RecordsInUse and HasExecutionWork report.
use edp_threading.Base.{
  ℕ, zero, suc, ◌+◌, ◌≤◌, ◌<◌, ◌≡◌, ◌∙◌, ◌↔◌, ◌≢◌, refl, ap, Bool, true, false, not, some, List, [],
  ◌∷◌, ◌==◌, if◌then◌else◌, elem, without, length, IsDistinct, IsDistinct-without,
  elem-without_self, elem_of_without, arith, Bool-cases, Option-cases, inl, inr, first_index,
  first_index-some, first_index-none, for_range_inv, count_below, ==_iff,
}
use native.Mathlib.Numerals.{add-one}
use edp_threading.Topology.{Topology, Links, Chain, first}
use edp_threading.Task.Control.{TaskOperationalState, state}
use edp_threading.Facility.Core.{
  TaskFacilityCore, links, count_queued, queued_tasks, records_in_use, has_execution_work,
  holds_work, is_work,
}
use edp_threading.Facility.Invariant.{Inv}

length-without : (i : ℕ) (xs : List ℕ) → length xs ≤ suc (length (without i xs))
length-without i [] = omega arith
length-without i (x ∷ xs) = ground (arith, length-without i xs)

-- A list without repetition of numbers below a bound is no longer than the bound.
pub distinct-length-le :
    (n : ℕ) (xs : List ℕ) → IsDistinct xs → ((i : ℕ) → elem i xs ≡ true → i < n) → length xs ≤ n
distinct-length-le zero [] d b = omega arith
distinct-length-le zero (x ∷ xs) d b = absurd (omega (arith, b x (ground arith)))
distinct-length-le (suc n) xs d b = omega (
  arith,
  length-without n xs,
  distinct-length-le n (without n xs) (IsDistinct-without n xs d) (λ i here. below i here),
)
  where
    below : (i : ℕ) → elem i (without n xs) ≡ true → i < n
    below i here = elim (Bool-cases (n == i)) [
      | inl e ↦ absurd (ground (arith, elem-without_self n xs d, (==_iff n i).0 e))
      | inr e ↦ ground (arith, b i (elem_of_without n i xs here))
    ]

-- The loop over a chain ends with its length, on any fuel that is at least that.
pub count_queued-Chain :
    (fuel : ℕ) (l : Links) (xs : List ℕ) (n : ℕ)
    → Chain l xs
    → length xs ≤ fuel
    → count_queued fuel l (first xs) n ≡ some (n + length xs)
unfolding count_queued
count_queued-Chain zero l [] n c h = ground arith
count_queued-Chain (suc fuel) l [] n c h = ground arith
count_queued-Chain zero l (x ∷ xs) n c h = absurd (omega arith)
count_queued-Chain (suc fuel) l (x ∷ []) n c h =
    rw c (count_queued-Chain fuel l [] (n + 1) tt (omega arith) ∙ ground arith)
count_queued-Chain (suc fuel) l (x ∷ y ∷ xs) n c h =
    rw c.0 (count_queued-Chain fuel l (y ∷ xs) (n + 1) c.1 (omega arith) ∙ ground arith)

module _ (t : Topology) where
  -- QueuedTasks ends within as many steps as there are records, on a well-formed core, and
  -- returns the length of the queue.
  pub queued_tasks_lem :
      (c : TaskFacilityCore t) (q : List ℕ) → Inv t c q → queued_tasks t c ≡ some (length q)
  unfolding queued_tasks
  queued_tasks_lem c q v =
      let held = t.queue.Holds-chain c.ends (links t c.records) q v.holds in
      rw held.0 (
        count_queued-Chain t.records (links t c.records) q 0 held.1
          (distinct-length-le t.records q v.distinct v.members)
        ∙ ground arith)

  abbrev in_use : TaskFacilityCore t → ℕ → Bool
  in_use c i = not (t.availability.is_set c.availability i)

  -- RecordsInUse and the number of available records sum to the record capacity.
  pub records_in_use_lem :
      (c : TaskFacilityCore t)
      → records_in_use t c + count_below t.records (t.availability.is_set c.availability)
        ≡ t.records
  unfolding records_in_use
  records_in_use_lem c =
      for_range_inv (λ i n. n + count_below i (t.availability.is_set c.availability) ≡ i)
        (λ i n. if t.availability.is_set c.availability i then n else n + 1) t.records 0 t.records 0
        (λ k n lt h. ground (arith, add-one k)) (omega arith) refl

  -- Neither Queued, nor Running, with or without a request to cancel.
  abbrev pub IsIdle : TaskOperationalState → Type 0
  IsIdle s =
      (s ≢ TaskOperationalState.queued)
      × (s ≢ TaskOperationalState.running)
      × (s ≢ TaskOperationalState.running_cancel_requested)

  is_work-IsIdle : (s : TaskOperationalState) → (is_work s ≡ false) ↔ IsIdle s
  is_work-IsIdle s = (idle s, quiet s)
    where
      idle : (s : TaskOperationalState) → is_work s ≡ false → IsIdle s
      idle s off = (
        λ e. (let h : is_work s ≡ true = ap is_work e in absurd (cc)),
        λ e. (let h : is_work s ≡ true = ap is_work e in absurd (cc)),
        λ e. (let h : is_work s ≡ true = ap is_work e in absurd (cc)),
      )

      quiet : (s : TaskOperationalState) → IsIdle s → is_work s ≡ false
      quiet TaskOperationalState.queued not = absurd (not.0 refl)
      quiet TaskOperationalState.running not = absurd (not.1 refl)
      quiet TaskOperationalState.running_cancel_requested not = absurd (not.2 refl)
      quiet TaskOperationalState.completed not = refl
      quiet TaskOperationalState.cancelled not = refl
      quiet TaskOperationalState.unnamed not = refl

  has_execution_work-is_work :
      (c : TaskFacilityCore t)
      → (has_execution_work t c ≡ false) ↔ (
          (i : ℕ)
          → i < t.records
          → t.availability.is_set c.availability i ≡ false
          → is_work (state (c.records i).control) ≡ false)
  unfolding has_execution_work
  has_execution_work-is_work c = (
    λ quiet i lt taken. elim (Option-cases (first_index t.records 0 (holds_work t c))) [
      | inl e ↦
          let r = first_index-none t.records 0 (holds_work t c) i e (omega arith) (omega arith) in
          rw taken at r
      | inr (j, e) ↦ absurd (ground arith)
    ],
    λ quiet. elim (Option-cases (first_index t.records 0 (holds_work t c))) [
      | inl e ↦ rw e
      | inr (j, e) ↦
          let r = first_index-some t.records 0 (holds_work t c) j e in
          absurd (ground (arith, quiet j (omega arith)))
    ],
  )

  -- HasExecutionWork answers false exactly when no allocated record is Queued, Running or
  -- asked to cancel.
  pub has_execution_work_lem :
      (c : TaskFacilityCore t)
      → (has_execution_work t c ≡ false) ↔ (
          (i : ℕ)
          → i < t.records
          → t.availability.is_set c.availability i ≡ false
          → IsIdle (state (c.records i).control))
  has_execution_work_lem c = (
    λ quiet i lt taken.
        (is_work-IsIdle (state (c.records i).control)).0
          ((has_execution_work-is_work c).0 quiet i lt taken),
    λ idle.
        (has_execution_work-is_work c).1
          (λ i lt taken. (is_work-IsIdle (state (c.records i).control)).1 (idle i lt taken)),
  )
