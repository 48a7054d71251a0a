-- ===== src/Wait/Registration/Laws.antt =====
-- What registering and unregistering do to the set of active waiters.
use edp_threading.Base.{
  ℕ, zero, suc, ◌+◌, ◌<◌, ◌≡◌, ◌≢◌, ◌⊎◌, refl, Bool, true, false, not, ◌==◌, if◌then◌else◌, update,
  first_index, first_index-some, first_index-none, for_range_inv, count_below, Bool-cases,
  Option-cases, inl, inr, arith, ==_iff, ==_refl, ne→==,
}
use native.Mathlib.Numerals.{add-one}
use edp_threading.Wait.Registration.{
  WaitRegistrationStatus, Registration, RegistrationSet, register, unregister, active_count,
}

count_below-agree :
    (n : ℕ) (p q : ℕ → Bool) → ((j : ℕ) → j < n → p j ≡ q j) → count_below n p ≡ count_below n q
count_below-agree zero p q same = refl
count_below-agree (suc n) p q same =
    rw (same n (omega arith), count_below-agree n p q (λ j lt. same j (omega arith))) refl

-- One more index passes.
count_below-more :
    (n i : ℕ) (p q : ℕ → Bool)
    → i < n
    → p i ≡ false
    → q i ≡ true
    → ((j : ℕ) → i ≢ j → p j ≡ q j)
    → count_below n q ≡ count_below n p + 1
count_below-more zero i p q lt off on same = absurd (omega arith)
count_below-more (suc n) i p q lt off on same = elim (Bool-cases (i == n)) [
  | inl e ↦
      let at : i ≡ n = (==_iff i n).0 e in
      ground (
        arith,
        count_below-agree n p q (λ j below. same j (λ other. absurd (omega arith))),
        add-one (count_below n p),
      )
  | inr ne ↦ ground (
    arith,
    same n,
    count_below-more n i p q (ground arith) off on same,
    add-one (count_below n p),
  )
]

module _ {R : Type 0} (kind : Registration R) (capacity : ℕ) where
  abbrev pub active_slots : RegistrationSet R → ℕ
  active_slots s = count_below capacity (λ i. kind.is_active (s i))

  pub active_count_lem : (s : RegistrationSet R) → active_count kind capacity s ≡ active_slots s
  unfolding active_count
  active_count_lem s =
      for_range_inv (λ i n. n ≡ count_below i (λ k. kind.is_active (s k)))
        (λ i n. if kind.is_active (s i) then n + 1 else n) capacity 0 capacity 0
        (λ k n lt h. ground (arith, add-one k)) (omega arith) refl

  -- What Register does: it takes the lowest inactive slot, if there is one.
  abbrev pub Registers :
      RegistrationSet R → R → ℕ → RegistrationSet R × ℕ × WaitRegistrationStatus → Type 0
  Registers s r index out =
      (((j : ℕ) → j < capacity → kind.is_active (s j) ≡ true)
        × (out ≡ (s, index, WaitRegistrationStatus.capacity_unavailable)))
      ⊎ ((i : ℕ) × (i < capacity)
          × (kind.is_active (s i) ≡ false)
          × ((j : ℕ) → j < i → kind.is_active (s j) ≡ true)
          × (out ≡ (update s i r, i, WaitRegistrationStatus.registered))
          × (active_count kind capacity (update s i r) ≡ active_count kind capacity s + 1))

  active_count-update :
      (s : RegistrationSet R) (i : ℕ) (r : R)
      → i < capacity
      → kind.is_active (s i) ≡ false
      → kind.is_active r ≡ true
      → active_count kind capacity (update s i r) ≡ active_count kind capacity s + 1
  active_count-update s i r lt off on =
      rw (active_count_lem s, active_count_lem (update s i r))
        (count_below-more capacity i (λ k. kind.is_active (s k))
          (λ k. kind.is_active (update s i r k)) lt off (rw (==_refl i) on)
          (λ j ne. rw (ne→== i j ne)))

  -- Register of an active registration takes the lowest inactive slot, writes the caller's
  -- index and adds one to ActiveCount, changing no other slot; it answers CapacityUnavailable
  -- exactly when every slot is active, and then changes neither a slot nor the index.
  pub register_lem :
      (s : RegistrationSet R) (r : R) (index : ℕ)
      → kind.is_active r ≡ true
      → Registers s r index (register kind capacity s r index)
  unfolding register
  register_lem s r index on =
      elim (Option-cases (first_index capacity 0 (λ i. not (kind.is_active (s i))))) [
        | inl full ↦ inl (
          λ j lt.
              let off =
                first_index-none capacity 0 (λ i. not (kind.is_active (s i))) j full (omega arith)
                  (omega arith) in
              ground arith,
          rw full,
        )
        | inr (i, found) ↦
            let at = first_index-some capacity 0 (λ i. not (kind.is_active (s i))) i found in
            let off : kind.is_active (s i) ≡ false = ground (arith, at.2) in
            inr (
              i,
              omega arith,
              off,
              λ j lt. ground (arith, at.3 j (omega arith) lt),
              rw found,
              active_count-update s i r (omega arith) off on,
            )
      ]

  -- What Unregister does to an active slot.
  abbrev pub Unregisters : RegistrationSet R → ℕ → RegistrationSet R → Type 0
  Unregisters s i out =
      (kind.is_active (out i) ≡ false)
      × ((j : ℕ) → i ≢ j → out j ≡ s j)
      × (active_count kind capacity s ≡ active_count kind capacity out + 1)

  -- Unregister of an active slot makes that slot inactive, changes no other slot and takes one
  -- from ActiveCount.
  pub unregister_lem :
      (s : RegistrationSet R) (i : ℕ)
      → i < capacity
      → kind.is_active (s i) ≡ true
      → Unregisters s i (unregister kind capacity s i)
  unfolding unregister
  unregister_lem s i lt on = (
    rw (==_refl i) (kind.is_active-clear (s i)),
    λ j ne. rw (ne→== i j ne),
    rw (active_count_lem s, active_count_lem (update s i (kind.clear (s i))))
        (count_below-more capacity i (λ k. kind.is_active (update s i (kind.clear (s i)) k))
          (λ k. kind.is_active (s k)) lt (rw (==_refl i) (kind.is_active-clear (s i))) on
          (λ j ne. rw (ne→== i j ne))),
  )
