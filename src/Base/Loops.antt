-- ===== src/Base/Loops.antt =====
-- Bounded loops over the indices of an array.
use Prim.Native.Nat.{suc, zero, ◌<◌, ◌≤◌, ◌+◌, ℕ}
use mathlib.Core.Path.{◌≡◌}
use mathlib.Core.Logic.{inl, inr}
use mathlib.Core.Bool.{Bool, true, false}
use mathlib.Core.Option.{Option, none, some}
use native.Mathlib.Omega.{arith}
use edp_threading.Base.Tests.{◌==◌, if◌then◌else◌, Bool-cases}

-- The first index from `i` on, among `n`, that passes.
unfoldable pub first_index : ℕ → ℕ → (ℕ → Bool) → Option ℕ
first_index zero i p = none
first_index (suc n) i p = if p i then some i else first_index n (i + 1) p

pub first_index-some :
    (n i : ℕ) (p : ℕ → Bool) (j : ℕ)
    → first_index n i p ≡ some j
    → (i ≤ j) × (j < i + n) × (p j ≡ true) × ((m : ℕ) → i ≤ m → m < j → p m ≡ false)
unfolding first_index
first_index-some zero i p j h = cc
first_index-some (suc n) i p j h = elim (Bool-cases (p i)) [
  | inl hit ↦ (ground arith, ground arith, ground arith, λ m lo hi. absurd (ground arith))
  | inr miss ↦
      let r : (i + 1 ≤ j)
          × (j < (i + 1) + n)
          × (p j ≡ true)
          × ((m : ℕ) → i + 1 ≤ m → m < j → p m ≡ false) =
        first_index-some n (i + 1) p j (ground arith) in
      (
        omega arith,
        omega arith,
        r.2,
        λ m lo hi. elim (Bool-cases (i == m)) [
          | inl e ↦ ground arith
          | inr ne ↦ r.3 m (ground arith) hi
        ],
      )
]

pub first_index-none :
    (n i : ℕ) (p : ℕ → Bool) (m : ℕ) → first_index n i p ≡ none → i ≤ m → m < i + n → p m ≡ false
unfolding first_index
first_index-none zero i p m h lo hi = absurd (omega arith)
first_index-none (suc n) i p m h lo hi = elim (Bool-cases (p i)) [
  | inl hit ↦ absurd (ground arith)
  | inr miss ↦ elim (Bool-cases (i == m)) [
    | inl e ↦ ground arith
    | inr ne ↦ first_index-none n (i + 1) p m (ground arith) (ground arith) (omega arith)
  ]
]

-- A loop that steps its index up by one, `count` times; `step` gets the index and what the loop has
-- gathered so far.
unfoldable pub for_range {ℓ} : {A : Type ℓ} → ℕ → ℕ → (ℕ → A → A) → A → A
for_range zero k step gathered = gathered
for_range (suc count) k step gathered = for_range count (k + 1) step (step k gathered)

-- What a step keeps below the loop's end holds at the end.
pub for_range_inv {ℓ κ} :
    {A : Type ℓ} (Keeps : ℕ → A → Type κ) (step : ℕ → A → A) (count k end : ℕ) (gathered : A)
    → ((m : ℕ) (x : A) → m < end → Keeps m x → Keeps (m + 1) (step m x))
    → k + count ≡ end
    → Keeps k gathered
    → Keeps end (for_range count k step gathered)
unfolding for_range
for_range_inv Keeps step (suc count) k end gathered kept ends here =
    for_range_inv Keeps step count (k + 1) end (step k gathered) kept (omega arith)
      (kept k gathered (omega arith) here)
for_range_inv Keeps step zero k end gathered kept ends here =
    let there : k ≡ end = omega arith in rw (← there) here

-- How many indices below a bound pass a test.
abbrev pub count_below : ℕ → (ℕ → Bool) → ℕ
count_below zero p = 0
count_below (suc n) p = if p n then suc (count_below n p) else count_below n p
