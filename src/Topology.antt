-- ===== src/Topology.antt =====
-- What the program takes from EDP-BoundedTopology (ESPressio_BoundedTopology.hpp), which is not
-- in this repository: interfaces of operations, each with the behaviour that the program relies
-- on. src/threading/detail/FacilityStorage.hpp and TopologyIndex.hpp name these types.
pub mod Lawful
use edp_threading.Base.{
  ℕ, suc, zero, ◌+◌, ◌≤◌, ◌<◌, ◌≡◌, ◌≢◌, Bool, true, false, Option, none, some, List, [], ◌∷◌, ◌++◌,
  ◌==◌, if◌then◌else◌, elem, without, update, count_below,
}

abbrev pub is_some {ℓ} : {A : Type ℓ} → Option A → Bool
is_some none = false
is_some (some a) = true

-- BoundedIndex: the storage type that a capacity selects holds the numbers below `modulus`, and
-- the sentinel `invalid` identifies no index.
pub record BoundedIndex : Type 0 where
  pub modulus : ℕ → ℕ
  pub invalid : ℕ → ℕ
  pub le-invalid : (capacity : ℕ) → capacity ≤ invalid capacity
  pub invalid-lt-modulus : (capacity : ℕ) → invalid capacity < modulus capacity
  pub modulus_mono : (a b : ℕ) → a ≤ b → modulus a ≤ modulus b

-- BoundedIndexSet: one bit for each index below the capacity. The Boolean beside a new set says
-- that the mutation result is Succeeded.
pub record BoundedIndexSet (capacity : ℕ) : Type 1 where
  pub Members : Type 0
  pub fresh : Members
  pub set_all : Members → Members
  pub is_set : Members → ℕ → Bool
  pub set : Members → ℕ → Members × Bool
  pub clear : Members → ℕ → Members × Bool
  pub find_first_set : Members → Option ℕ
  pub is_any_set : Members → Bool
  pub count : Members → ℕ
  pub is_set-fresh : (i : ℕ) → i < capacity → is_set fresh i ≡ false
  pub is_set-set_all : (m : Members) (i : ℕ) → i < capacity → is_set (set_all m) i ≡ true
  pub is_set-set :
      (m : Members) (i j : ℕ)
      → i < capacity
      → j < capacity
      → is_set (set m i).0 j ≡ (if i == j then true else is_set m j)
  pub is_set-clear :
      (m : Members) (i j : ℕ)
      → i < capacity
      → j < capacity
      → is_set (clear m i).0 j ≡ (if i == j then false else is_set m j)
  pub clear_succeeds :
      (m : Members) (i : ℕ) → i < capacity → is_set m i ≡ true → (clear m i).1 ≡ true
  pub find_first_set_some :
      (m : Members) (i : ℕ)
      → find_first_set m ≡ some i
      → (i < capacity) × (is_set m i ≡ true) × ((j : ℕ) → j < i → is_set m j ≡ false)
  pub find_first_set_none :
      (m : Members) → find_first_set m ≡ none → (i : ℕ) → i < capacity → is_set m i ≡ false
  pub is_any_set_lem : (m : Members) → is_any_set m ≡ is_some (find_first_set m)
  pub count_lem : (m : Members) → count m ≡ count_below capacity (is_set m)

-- The link that each record of an intrusive queue holds, as QueueNext returns it.
abbrev pub Links : Type 0
Links = ℕ → Option ℕ

-- A call of SetQueueNext: the record and its new link.
abbrev pub Write : Type 0
Write = ℕ × Option ℕ

abbrev pub write_all : Links → List Write → Links
write_all l [] = l
write_all l ((i, next) ∷ ws) = write_all (update l i next) ws

-- The records of a list are linked in its order, and the last one ends the chain.
abbrev pub Chain : Links → List ℕ → Type 0
Chain l [] = Unit {0}
Chain l (x ∷ []) = l x ≡ none
Chain l (x ∷ y ∷ xs) = (l x ≡ some y) × Chain l (y ∷ xs)

abbrev pub first : List ℕ → Option ℕ
first [] = none
first (x ∷ xs) = some x

abbrev pub LinkBelow : ℕ → Option ℕ → Type 0
LinkBelow capacity none = Unit {0}
LinkBelow capacity (some next) = next < capacity

-- Every write is to a record of the list, with a link below the capacity.
abbrev pub Touches : ℕ → List ℕ → List Write → Type 0
Touches capacity xs [] = Unit {0}
Touches capacity xs ((i, next) ∷ ws) =
    (elem i xs ≡ true) × LinkBelow capacity next × Touches capacity xs ws

-- IntrusiveQueue: a FIFO of indices below the capacity, which keeps its two ends; the links stand
-- in the records. `Holds q l xs` says that the queue with these links contains `xs`, oldest first.
-- A mutation returns the calls of SetQueueNext that it makes, in order.
pub record IntrusiveQueue (capacity : ℕ) : Type 1 where
  pub Ends : Type 0
  pub fresh : Ends
  pub head : Ends → Option ℕ
  pub push : Ends → Links → ℕ → Ends × List Write
  pub pop : Ends → Links → Option (ℕ × Ends × List Write)
  pub remove : Ends → Links → ℕ → Ends × List Write
  pub Holds : Ends → Links → List ℕ → Type 0
  pub fresh-Holds : (l : Links) → Holds fresh l []
  pub Holds-frame :
      (q : Ends) (l k : Links) (xs : List ℕ)
      → Holds q l xs
      → ((i : ℕ) → elem i xs ≡ true → k i ≡ l i)
      → Holds q k xs
  pub Holds-chain :
      (q : Ends) (l : Links) (xs : List ℕ) → Holds q l xs → (head q ≡ first xs) × Chain l xs
  pub push-Holds :
      (q : Ends) (l : Links) (xs : List ℕ) (i : ℕ)
      → Holds q l xs
      → i < capacity
      → elem i xs ≡ false
      → Holds (push q l i).0 (write_all l (push q l i).1) (xs ++ i ∷ [])
        × Touches capacity (xs ++ i ∷ []) (push q l i).1
  pub pop_empty : (q : Ends) (l : Links) → Holds q l [] → pop q l ≡ none
  pub pop-Holds :
      (q : Ends) (l : Links) (x : ℕ) (xs : List ℕ)
      → Holds q l (x ∷ xs)
      → (r : Ends) × (ws : List Write) × (pop q l ≡ some (x, r, ws))
        × Holds r (write_all l ws) xs
        × Touches capacity (x ∷ xs) ws
  pub remove-Holds :
      (q : Ends) (l : Links) (xs : List ℕ) (i : ℕ)
      → Holds q l xs
      → elem i xs ≡ true
      → Holds (remove q l i).0 (write_all l (remove q l i).1) (without i xs)
        × Touches capacity xs (remove q l i).1

-- The types that one facility is instantiated at: TRecordCapacity, TExecutionContextCapacity,
-- TWorkerCount and TFirstContextIndex, with the mechanics for them.
pub record Topology : Type 1 where
  pub records : ℕ
  pub contexts : ℕ
  pub workers : ℕ
  pub first_context : ℕ
  pub index : BoundedIndex
  pub availability : BoundedIndexSet records
  pub queue : IntrusiveQueue records
  pub leases : BoundedIndexSet workers
  pub workers_fit : first_context + workers ≤ contexts
