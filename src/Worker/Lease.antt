-- ===== src/Worker/Lease.antt =====
-- The leases as a set of contexts: what each operation of WorkerLeaseScheduler does to it.
use native.Mathlib.Nat.{mod-eq_of_lt}
use edp_threading.Base.{
  ℕ, zero, suc, ◌+◌, ◌-◌, ◌≤◌, ◌<◌, ◌≡◌, ◌⊎◌, Bool, true, false, Option, none, some, ◌==◌,
  if◌then◌else◌, arith, Bool-cases, Option-cases, inl, inr, count_below,
}
use edp_threading.Topology.{Topology}
use edp_threading.Worker.{
  Workers, WorkerAvailabilityResult, is_worker_context, worker_ordinal, context_index_for_worker,
  mark_available, try_claim_specific, try_claim_available, in_use_count, is_free, available_count,
}

module _ (t : Topology) where
  worker_bounds :
      (context : ℕ)
      → is_worker_context t context ≡ true
      → (t.first_context ≤ context) × (worker_ordinal t context < t.workers)
  worker_bounds context h = ground arith

  -- The context of a Worker's ordinal, without the cast.
  context_index_for_worker_lem :
      (i : ℕ)
      → i < t.workers
      → (context_index_for_worker t i ≡ t.first_context + i)
        × (is_worker_context t (t.first_context + i) ≡ true)
  unfolding context_index_for_worker
  context_index_for_worker_lem i lt = (
    mod-eq_of_lt (
        omega (
          arith,
          t.workers_fit,
          t.index.le-invalid t.contexts,
          t.index.invalid-lt-modulus t.contexts,
        )),
    ground arith,
  )

  set_free :
      (w : Workers t) (a b : ℕ)
      → is_worker_context t a ≡ true
      → is_free t (t.leases.set w (worker_ordinal t a)).0 b
        ≡ (if a == b then true else is_free t w b)
  set_free w a b h = elim (Bool-cases (is_worker_context t b)) [
    | inl in_range ↦ ground (
      arith,
      t.leases.is_set-set w (a - t.first_context) (b - t.first_context),
      worker_bounds a,
      worker_bounds b,
    )
    | inr out ↦ ground arith
  ]

  clear_free :
      (w : Workers t) (a b : ℕ)
      → is_worker_context t a ≡ true
      → is_free t (t.leases.clear w (worker_ordinal t a)).0 b
        ≡ (if a == b then false else is_free t w b)
  clear_free w a b h = elim (Bool-cases (is_worker_context t b)) [
    | inl in_range ↦ ground (
      arith,
      t.leases.is_set-clear w (a - t.first_context) (b - t.first_context),
      worker_bounds a,
      worker_bounds b,
    )
    | inr out ↦ ground arith
  ]

  -- MarkAvailable frees exactly the given Worker, and refuses other contexts.
  abbrev pub Marks : Workers t → ℕ → Workers t × WorkerAvailabilityResult → Type 0
  Marks w a r =
      ((is_worker_context t a ≡ true)
        × (r.1 ≡ WorkerAvailabilityResult.available)
        × ((b : ℕ) → is_free t r.0 b ≡ (if a == b then true else is_free t w b)))
      ⊎ ((is_worker_context t a ≡ false)
          × (r ≡ (w, WorkerAvailabilityResult.outside_facility_range)))

  -- MarkAvailable frees exactly the given Worker, and answers OutsideFacilityRange and changes
  -- nothing for a context that is none of the facility's Workers.
  pub mark_available_lem : (w : Workers t) (a : ℕ) → Marks w a (mark_available t w a)
  unfolding mark_available
  mark_available_lem w a = elim (Bool-cases (is_worker_context t a)) [
    | inl here ↦ inl (here, rw here, rw here (λ b. set_free w a b here))
    | inr out ↦ inr (out, rw out)
  ]

  -- A claim of a specific context succeeds exactly when it is free, and takes only that.
  abbrev pub ClaimsSpecific : Workers t → ℕ → Workers t × Option ℕ → Type 0
  ClaimsSpecific w a r =
      ((is_free t w a ≡ true)
        × (r.1 ≡ some a)
        × ((b : ℕ) → is_free t r.0 b ≡ (if a == b then false else is_free t w b)))
      ⊎ ((is_free t w a ≡ false) × (r ≡ (w, none)))

  -- TryClaimSpecific succeeds exactly when the context is that of a free Worker of the
  -- facility; it then returns the context and takes only that Worker. Otherwise it changes
  -- nothing.
  pub try_claim_specific_lem :
      (w : Workers t) (a : ℕ) → ClaimsSpecific w a (try_claim_specific t w a)
  unfolding try_claim_specific
  try_claim_specific_lem w a = elim (Bool-cases (is_worker_context t a)) [
    | inr out ↦ inr (rw out, rw out)
    | inl here ↦ elim (Bool-cases (t.leases.is_set w (worker_ordinal t a))) [
      | inl free ↦
          inl (rw (here, free), rw (here, free), rw (here, free) (λ b. clear_free w a b here))
      | inr taken ↦ inr (rw (here, taken), rw (here, taken))
    ]
  ]

  -- An unspecific claim takes the free Worker with the lowest context, and fails only when no
  -- context is free.
  abbrev pub ClaimsLowest : Workers t → Workers t × Option ℕ → Type 0
  ClaimsLowest w r =
      ((a : ℕ) × (is_free t w a ≡ true)
        × (r.1 ≡ some a)
        × ((b : ℕ) → b < a → is_free t w b ≡ false)
        × ((b : ℕ) → is_free t r.0 b ≡ (if a == b then false else is_free t w b)))
      ⊎ (((b : ℕ) → is_free t w b ≡ false) × (r ≡ (w, none)))

  lowest_claimed :
      (w : Workers t) (i : ℕ)
      → t.leases.find_first_set w ≡ some i
      → ClaimsLowest w ((t.leases.clear w i).0, some (context_index_for_worker t i))
  lowest_claimed w i e =
      let found = t.leases.find_first_set_some w i e in
      let place = context_index_for_worker_lem i found.0 in
      let back : worker_ordinal t (t.first_context + i) ≡ i = omega arith in
      inl (
        t.first_context + i,
        rw (place.1, back) found.1,
        rw place.0,
        λ b lt. below b lt found.2,
        λ b. rw (rw back at (clear_free w (t.first_context + i) b place.1)),
      )
    where
      below :
          (b : ℕ)
          → b < t.first_context + i
          → ((j : ℕ) → j < i → t.leases.is_set w j ≡ false)
          → is_free t w b ≡ false
      below b lt none_before = elim (Bool-cases (is_worker_context t b)) [
        | inl here ↦
            rw here (none_before (b - t.first_context) (omega (arith, worker_bounds b here)))
        | inr out ↦ rw out
      ]

  -- TryClaimAvailable reserves the free Worker with the lowest context, returns that context
  -- and takes no other; it fails exactly when no context is free, and then changes nothing.
  pub try_claim_available_lem : (w : Workers t) → ClaimsLowest w (try_claim_available t w)
  unfolding try_claim_available
  try_claim_available_lem w = elim (Option-cases (t.leases.find_first_set w)) [
    | inl e ↦ inr (λ b. nobody b e, rw (e, try_claim_available))
    | inr (i, e) ↦ rw (e, try_claim_available) (lowest_claimed w i e)
  ]
    where
      nobody : (b : ℕ) → t.leases.find_first_set w ≡ none → is_free t w b ≡ false
      nobody b e = elim (Bool-cases (is_worker_context t b)) [
        | inl here ↦
            rw here
              (t.leases.find_first_set_none w e (b - t.first_context) (worker_bounds b here).1)
        | inr out ↦ rw out
      ]

  count_below-le : (n : ℕ) (p : ℕ → Bool) → count_below n p ≤ n
  count_below-le zero p = omega arith
  count_below-le (suc n) p = ground (arith, count_below-le n p)

  -- The Workers in use and the available ones sum to the facility's Workers.
  pub in_use_count_lem : (w : Workers t) → in_use_count t w + available_count t w ≡ t.workers
  unfolding in_use_count
  in_use_count_lem w =
      omega (arith, t.leases.count_lem w, count_below-le t.workers (t.leases.is_set w))
