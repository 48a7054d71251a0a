-- ===== src/Base/Lists.antt =====
-- Lists of indices: membership as a test, removal, and lists without repetition.
use Prim.Native.Nat.{ℕ, suc, ◌+◌}
use mathlib.Core.Path.{◌≡◌, refl}
use mathlib.Core.Logic.{◌≢◌}
use mathlib.Core.Bool.{Bool, true, false, ◌||◌}
use mathlib.Core.List.{List, [], ◌∷◌, ◌++◌}
use native.Mathlib.Omega.{arith}
use edp_threading.Base.Tests.{◌==◌, if◌then◌else◌}

abbrev pub length {ℓ} : {A : Type ℓ} → List A → ℕ
length [] = 0
length (x ∷ xs) = suc (length xs)

pub length-append {ℓ} : {A : Type ℓ} (xs ys : List A) → length (xs ++ ys) ≡ length xs + length ys
length-append [] ys = omega arith
length-append (x ∷ xs) ys = omega (arith, length-append xs ys)

abbrev pub elem : ℕ → List ℕ → Bool
elem i [] = false
elem i (x ∷ xs) = x == i || elem i xs

-- The list without the first occurrence of an index.
abbrev pub without : ℕ → List ℕ → List ℕ
without i [] = []
without i (x ∷ xs) = if x == i then xs else x ∷ without i xs

abbrev pub IsDistinct : List ℕ → Type 0
IsDistinct [] = Unit {0}
IsDistinct (x ∷ xs) = (elem x xs ≡ false) × IsDistinct xs

pub elem-append : (i : ℕ) (xs ys : List ℕ) → elem i (xs ++ ys) ≡ (elem i xs || elem i ys)
elem-append i [] ys = refl
elem-append i (x ∷ xs) ys = ground (arith, elem-append i xs ys)

pub IsDistinct-snoc :
    (xs : List ℕ) (i : ℕ) → IsDistinct xs → elem i xs ≡ false → IsDistinct (xs ++ i ∷ [])
IsDistinct-snoc [] i d h = (refl, tt)
IsDistinct-snoc (x ∷ xs) i d h =
    (ground (arith, elem-append x xs (i ∷ [])), IsDistinct-snoc xs i d.1 (ground arith))

pub elem-without_ne : (i j : ℕ) (xs : List ℕ) → i ≢ j → elem j (without i xs) ≡ elem j xs
elem-without_ne i j [] h = refl
elem-without_ne i j (x ∷ xs) h = ground (arith, elem-without_ne i j xs h)

pub elem-without_self : (i : ℕ) (xs : List ℕ) → IsDistinct xs → elem i (without i xs) ≡ false
elem-without_self i [] d = refl
elem-without_self i (x ∷ xs) d = ground (arith, elem-without_self i xs d.1)

pub IsDistinct-without : (i : ℕ) (xs : List ℕ) → IsDistinct xs → IsDistinct (without i xs)
IsDistinct-without i [] d = tt
IsDistinct-without i (x ∷ xs) d =
    ground (arith, IsDistinct-without i xs d.1, elem-without_ne i x xs)

pub without_absent : (i : ℕ) (xs : List ℕ) → elem i xs ≡ false → without i xs ≡ xs
without_absent i [] h = refl
without_absent i (x ∷ xs) h = ground (arith, without_absent i xs)

pub elem-ne : (i j : ℕ) (xs : List ℕ) → elem i xs ≡ true → elem j xs ≡ false → i ≢ j
elem-ne i j xs h k e = ground arith

pub elem_of_without : (i j : ℕ) (xs : List ℕ) → elem j (without i xs) ≡ true → elem j xs ≡ true
elem_of_without i j [] h = h
elem_of_without i j (x ∷ xs) h = ground (arith, elem_of_without i j xs)
