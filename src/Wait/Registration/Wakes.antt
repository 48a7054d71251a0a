-- ===== src/Wait/Registration/Wakes.antt =====
-- A visit that wakes the waiters of a target.
use edp_threading.Base.{
  ℕ, zero, suc, ◌<◌, ◌≡◌, ◌∙◌, refl, sym, Bool, true, ◌&&◌, List, [], ◌∷◌, ◌++◌, ◌==◌,
  if◌then◌else◌, update, for_range_inv, Bool-cases, inl, inr, arith, ==_iff, ==_refl, or_true, elem,
  elem-append,
}
use native.Mathlib.Numerals.{add-one}
use edp_threading.Lifecycle.{Outcome, first_failure}
use edp_threading.Wait.Registration.{Registration, RegistrationSet, visit_active}

-- The wakes of a list of contexts, one after the other, with the first failure.
abbrev pub wake_all : {W : Type 0} → (ℕ → W → W × Outcome) → List ℕ → W × Outcome → W × Outcome
wake_all wake [] at = at
wake_all wake (context ∷ rest) (w, o) =
    let (w', o') = wake context w in wake_all wake rest (w', first_failure o o')

wake_all-snoc :
    {W : Type 0} (wake : ℕ → W → W × Outcome) (contexts : List ℕ) (context : ℕ) (at : W × Outcome)
    → wake_all wake (contexts ++ context ∷ []) at
      ≡ wake_all wake (context ∷ []) (wake_all wake contexts at)
wake_all-snoc wake [] context at = refl
wake_all-snoc wake (c ∷ rest) context (w, o) =
    wake_all-snoc wake rest context ((wake c w).0, first_failure o (wake c w).1)

module _ {R W : Type 0} (kind : Registration R) (context : R → ℕ) (test : R → Bool)
    (wake : ℕ → W → W × Outcome) where
  -- The contexts that wait in the first slots and pass the test, by slot.
  abbrev pub waiting_contexts : ℕ → RegistrationSet R → List ℕ
  waiting_contexts zero s = []
  waiting_contexts (suc n) s =
      if kind.is_active (s n) && test (s n)
      then waiting_contexts n s ++ context (s n) ∷ []
      else waiting_contexts n s

  -- What the code's visitors do.
  abbrev pub waker : R → W × Outcome → R × (W × Outcome)
  waker r at =
      if test r
      then (let (w', o) = wake (context r) at.0 in (r, (w', first_failure at.1 o)))
      else (r, at)

  abbrev pub Wakes :
      ℕ → RegistrationSet R → W × Outcome → RegistrationSet R × (W × Outcome) → Type 0
  Wakes n s start out =
      ((j : ℕ) → out.0 j ≡ s j) × (out.1 ≡ wake_all wake (waiting_contexts n s) start)

  -- Each context that waits, and passes the test, is among them.
  pub waiting_contexts-elem :
      (n i : ℕ) (s : RegistrationSet R)
      → i < n
      → (kind.is_active (s i) && test (s i)) ≡ true
      → elem (context (s i)) (waiting_contexts n s) ≡ true
  waiting_contexts-elem zero i s lt waits = absurd (omega arith)
  waiting_contexts-elem (suc n) i s lt waits = elim (Bool-cases (i == n)) [
    | inl here ↦
        rw (← (==_iff i n).0 here, waits)
          (elem-append (context (s i)) (waiting_contexts i s) (context (s i) ∷ [])
            ∙ rw (==_refl (context (s i))) (or_true (elem (context (s i)) (waiting_contexts i s))))
    | inr other ↦
        let below = waiting_contexts-elem n i s (ground arith) waits in
        elim (Bool-cases (kind.is_active (s n) && test (s n))) [
          | inr quiet ↦ rw quiet below
          | inl waiting ↦ rw waiting (
              elem-append (context (s i)) (waiting_contexts n s) (context (s n) ∷ [])
              ∙ rw below refl)
        ]
  ]

  waker_same : (r : R) (at : W × Outcome) → (waker r at).0 ≡ r
  waker_same r at = elim (Bool-cases (test r)) [ inl e ↦ rw e refl | inr e ↦ rw e refl ]

  update_same :
      (s at : RegistrationSet R) (m : ℕ) (r : R)
      → ((j : ℕ) → at j ≡ s j)
      → r ≡ at m
      → (j : ℕ) → update at m r j ≡ s j
  update_same s at m r same e j = elim (Bool-cases (m == j)) [
    | inl here ↦ rw (here, e, (==_iff m j).0 here) (same j)
    | inr ne ↦ rw ne (same j)
  ]

  abbrev visited : ℕ → RegistrationSet R × (W × Outcome) → RegistrationSet R × (W × Outcome)
  visited i at =
      if kind.is_active (at.0 i)
      then (update at.0 i (waker (at.0 i) at.1).0, (waker (at.0 i) at.1).1)
      else at

  visit_step :
      (m : ℕ) (s : RegistrationSet R) (start : W × Outcome) (at : RegistrationSet R × (W × Outcome))
      → Wakes m s start at
      → Wakes (suc m) s start (visited m at)
  visit_step m s start at keeps = elim (Bool-cases (kind.is_active (s m))) [
    | inr idle ↦ rw (keeps.0 m, idle) keeps
    | inl active ↦ elim (Bool-cases (test (s m))) [
      | inr other ↦
          rw (keeps.0 m, active, other)
            (update_same s at.0 m (s m) keeps.0 (sym (keeps.0 m)), keeps.1)
      | inl same ↦
          rw (keeps.0 m, active, same)
            (
              update_same s at.0 m (s m) keeps.0 (sym (keeps.0 m)),
              rw (wake_all-snoc wake (waiting_contexts m s) (context (s m)) start, keeps.1) refl,
            )
    ]
  ]

  -- Every registered context that passes the test is woken, in the order of the slots and once for
  -- each of its registrations, whether the wakes before it failed or not; the answer is the first
  -- failure, and the registrations stay.
  pub visit_active-Wakes :
      (capacity : ℕ) (s : RegistrationSet R) (start : W × Outcome)
      → Wakes capacity s start (visit_active kind capacity waker (s, start))
  unfolding visit_active
  visit_active-Wakes capacity s start =
      for_range_inv (λ k at. Wakes k s start at) visited capacity 0 capacity (s, start)
        (λ m at lt keeps. rw (add-one m) (visit_step m s start at keeps)) (omega arith)
        ((λ j. refl), refl)
