-- ===== src/Lifecycle/Calls.antt =====
-- Sequences of calls to the platform, as descriptions of what an operation does outside.
use edp_threading.Base.{
  ℕ, zero, suc, ◌+◌, ◌≤◌, ◌≡◌, refl, Bool, true, List, [], ◌∷◌, ◌++◌, ltb, if◌then◌else◌, arith,
  Bool-cases, inl, inr, ◌⊎◌,
}
use edp_threading.Lifecycle.{Call, Platform, Outcome, traverse}

pub Outcome-cases : (o : Outcome) → (o ≡ Outcome.succeeded) ⊎ ((e : ℕ) × (o ≡ Outcome.failed e))
Outcome-cases Outcome.succeeded = inl refl
Outcome-cases (Outcome.failed e) = inr (e, refl)

-- The world after a sequence of calls.
abbrev pub perform : {W : Type 0} → Platform W → W → List Call → W
perform platform w [] = w
perform platform w (c ∷ cs) = perform platform (platform c w).0 cs

-- `n` calls, on the resources from `i` on.
abbrev pub calls : (ℕ → Call) → ℕ → ℕ → List Call
calls call zero i = []
calls call (suc n) i = call i ∷ calls call n (i + 1)

abbrev pub selected : (ℕ → Call) → (ℕ → Bool) → ℕ → ℕ → List Call
selected call test zero i = []
selected call test (suc n) i =
    if test i then call i ∷ selected call test n (i + 1) else selected call test n (i + 1)

pub selected-true : (call : ℕ → Call) (n i : ℕ) → selected call (λ j. true) n i ≡ calls call n i
selected-true call zero i = refl
selected-true call (suc n) i = rw (selected-true call n (i + 1))

selected_none :
    (call : ℕ → Call) (count n i : ℕ) → count ≤ i → selected call (λ j. ltb j count) n i ≡ []
selected_none call count zero i h = refl
selected_none call count (suc n) i h = ground (arith, selected_none call count n (i + 1))

-- The indices from `i` on that lie below `i + k`, among `n`.
pub selected_below :
    (call : ℕ → Call) (k n i count : ℕ)
    → k ≤ n
    → count ≡ i + k
    → selected call (λ j. ltb j count) n i ≡ calls call k i
selected_below call zero n i count h e = selected_none call count n i (omega arith)
selected_below call (suc k) zero i count h e = absurd (omega arith)
selected_below call (suc k) (suc n) i count h e =
    ground (arith, selected_below call k n (i + 1) count)

module _ {W : Type 0} (platform : Platform W) where
  pub perform-append :
      (w : W) (cs ds : List Call)
      → perform platform w (cs ++ ds) ≡ perform platform (perform platform w cs) ds
  perform-append w [] ds = refl
  perform-append w (c ∷ cs) ds = perform-append (platform c w).0 cs ds

  pub traverse-perform :
      (call : ℕ → Call) (test : ℕ → Bool) (n i : ℕ) (w : W)
      → (traverse platform call test n i w).0 ≡ perform platform w (selected call test n i)
  unfolding traverse
  traverse-perform call test zero i w = refl
  traverse-perform call test (suc n) i w = elim (Bool-cases (test i)) [
    | inl yes' ↦ rw yes' (traverse-perform call test n (i + 1) (platform (call i) w).0)
    | inr no' ↦ rw no' (traverse-perform call test n (i + 1) w)
  ]

  -- Every call of the sequence, made from the world that the ones before it leave, succeeds.
  abbrev pub AllSucceed : W → List Call → Type 0
  AllSucceed w [] = Unit {0}
  AllSucceed w (c ∷ cs) = ((platform c w).1 ≡ Outcome.succeeded) × AllSucceed (platform c w).0 cs
