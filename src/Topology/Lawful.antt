-- ===== src/Topology/Lawful.antt =====
-- Small implementations of the interfaces, at every capacity: they show that what the program
-- relies on can hold, and let the operations be evaluated.
use edp_threading.Base.{
  ℕ, ◌+◌, ◌<◌, ◌≡◌, refl, ap, Bool, true, false, Option, none, some, List, [], ◌∷◌, ◌++◌, ◌∙◌,
  elem_of_without, first_index, first_index-some, first_index-none, count_below, elem, without,
  update, IsDistinct, IsDistinct-snoc, IsDistinct-without, arith,
}
use edp_threading.Topology.{
  BoundedIndex, BoundedIndexSet, IntrusiveQueue, Links, Write, write_all, Chain, first, Touches,
  is_some,
}

-- Storage wide enough for the capacity and one more value, the sentinel.
abbrev pub plain_index : BoundedIndex
plain_index = record {
  modulus = λ capacity. capacity + 1;
  invalid = λ capacity. capacity;
  le-invalid = λ capacity. omega arith;
  invalid-lt-modulus = λ capacity. omega arith;
  modulus_mono = λ a b h. omega arith;
}

abbrev pub plain_set : (capacity : ℕ) → BoundedIndexSet capacity
plain_set capacity = record {
  Members = ℕ → Bool;
  fresh = λ i. false;
  set_all = λ m i. true;
  is_set = λ m i. m i;
  set = λ m i. (update m i true, true);
  clear = λ m i. (update m i false, true);
  find_first_set = first_index capacity 0;
  is_any_set = λ m. is_some (first_index capacity 0 m);
  count = count_below capacity;
  is_set-fresh = λ i h. refl;
  is_set-set_all = λ m i h. refl;
  is_set-set = λ m i j h k. refl;
  is_set-clear = λ m i j h k. refl;
  clear_succeeds = λ m i h k. refl;
  find_first_set_some = λ m i e.
      let r = first_index-some capacity 0 m i e in
      (omega arith, r.2, λ j lt. r.3 j (omega arith) lt);
  find_first_set_none = λ m e i lt. first_index-none capacity 0 m i e (omega arith) (omega arith);
  is_any_set_lem = λ m. refl;
  count_lem = λ m. refl;
}

-- The calls of SetQueueNext that chain a list.
abbrev pub relink : List ℕ → List Write
relink [] = []
relink (x ∷ []) = (x, none) ∷ []
relink (x ∷ y ∷ xs) = (x, some y) ∷ relink (y ∷ xs)

abbrev pub AllBelow : ℕ → List ℕ → Type 0
AllBelow n [] = Unit {0}
AllBelow n (x ∷ xs) = (x < n) × AllBelow n xs

pub AllBelow-append :
    (n : ℕ) (xs : List ℕ) (i : ℕ) → AllBelow n xs → i < n → AllBelow n (xs ++ i ∷ [])
AllBelow-append n [] i a h = (h, tt)
AllBelow-append n (x ∷ xs) i a h = (a.0, AllBelow-append n xs i a.1 h)

pub AllBelow-without : (n i : ℕ) (xs : List ℕ) → AllBelow n xs → AllBelow n (without i xs)
AllBelow-without n i [] a = tt
AllBelow-without n i (x ∷ xs) a = ground (arith, AllBelow-without n i xs a.1)

-- Writes to other records leave a link alone.
write_all_other :
    (l : Links) (ws : List Write) (xs : List ℕ) (n j : ℕ)
    → Touches n xs ws
    → elem j xs ≡ false
    → write_all l ws j ≡ l j
write_all_other l [] xs n j t h = refl
write_all_other l ((i, next) ∷ ws) xs n j t h =
    ground (arith, write_all_other (update l i next) ws xs n j t.2 h)

Touches-weaken :
    (n : ℕ) (x : ℕ) (xs : List ℕ) (ws : List Write) → Touches n xs ws → Touches n (x ∷ xs) ws
Touches-weaken n x xs [] t = tt
Touches-weaken n x xs ((i, next) ∷ ws) t = (ground arith, t.1, Touches-weaken n x xs ws t.2)

pub relink-Touches : (n : ℕ) (xs : List ℕ) → AllBelow n xs → Touches n xs (relink xs)
relink-Touches n [] a = tt
relink-Touches n (x ∷ []) a = (ground arith, tt, tt)
relink-Touches n (x ∷ y ∷ xs) a =
    (ground arith, a.1.0, Touches-weaken n x (y ∷ xs) _ (relink-Touches n (y ∷ xs) a.1))

pub relink-Chain :
    (n : ℕ) (l : Links) (xs : List ℕ)
    → IsDistinct xs
    → AllBelow n xs
    → Chain (write_all l (relink xs)) xs
relink-Chain n l [] d a = tt
relink-Chain n l (x ∷ []) d a = ground arith
relink-Chain n l (x ∷ y ∷ xs) d a = (
  write_all_other (update l x (some y)) (relink (y ∷ xs)) (y ∷ xs) n x
        (relink-Touches n (y ∷ xs) a.1) d.0
      ∙ ground arith,
  relink-Chain n (update l x (some y)) (y ∷ xs) d.1 a.1,
)

pub Chain-frame :
    (l k : Links) (xs : List ℕ) → Chain l xs → ((i : ℕ) → elem i xs ≡ true → k i ≡ l i) → Chain k xs
Chain-frame l k [] c f = tt
Chain-frame l k (x ∷ []) c f = f x (ground arith) ∙ c
Chain-frame l k (x ∷ y ∷ xs) c f =
    (f x (ground arith) ∙ c.0, Chain-frame l k (y ∷ xs) c.1 (λ i h. f i (ground arith)))

abbrev pub Plain : ℕ → List ℕ → Links → List ℕ → Type 0
Plain n q l xs = (q ≡ xs) × IsDistinct xs × AllBelow n xs × Chain l xs

abbrev pub plain_push : List ℕ → Links → ℕ → List ℕ × List Write
plain_push q l i = (q ++ i ∷ [], relink (q ++ i ∷ []))

abbrev pub plain_pop : List ℕ → Links → Option (ℕ × List ℕ × List Write)
plain_pop [] l = none
plain_pop (x ∷ xs) l = some (x, xs, relink xs)

abbrev pub plain_remove : List ℕ → Links → ℕ → List ℕ × List Write
plain_remove q l i = (without i q, relink (without i q))

module _ (n : ℕ) where
  Plain-relinked :
      (l : Links) (q xs : List ℕ)
      → q ≡ xs
      → IsDistinct xs
      → AllBelow n xs
      → Plain n q (write_all l (relink q)) xs
  Plain-relinked l q xs e d a = (e, d, a, rw e (relink-Chain n l xs d a))

  pub plain_push-Holds :
      (q : List ℕ) (l : Links) (xs : List ℕ) (i : ℕ)
      → Plain n q l xs
      → i < n
      → elem i xs ≡ false
      → Plain n (plain_push q l i).0 (write_all l (plain_push q l i).1) (xs ++ i ∷ [])
        × Touches n (xs ++ i ∷ []) (plain_push q l i).1
  plain_push-Holds q l xs i p lt new =
      let e : q ++ i ∷ [] ≡ xs ++ i ∷ [] = ap (λ z. z ++ i ∷ []) p.0 in
      let a : AllBelow n (xs ++ i ∷ []) = AllBelow-append n xs i p.2 lt in
      (
        Plain-relinked l _ _ e (IsDistinct-snoc xs i p.1 new) a,
        rw e (relink-Touches n (xs ++ i ∷ []) a),
      )

  pub plain_pop_empty : (q : List ℕ) (l : Links) → Plain n q l [] → plain_pop q l ≡ none
  plain_pop_empty q l p = rw p.0

  pub plain_pop-Holds :
      (q : List ℕ) (l : Links) (x : ℕ) (xs : List ℕ)
      → Plain n q l (x ∷ xs)
      → (r : List ℕ) × (ws : List Write) × (plain_pop q l ≡ some (x, r, ws))
        × Plain n r (write_all l ws) xs
        × Touches n (x ∷ xs) ws
  plain_pop-Holds q l x xs p = (
    xs,
    relink xs,
    rw p.0,
    Plain-relinked l xs xs refl p.1.1 p.2.1,
    Touches-weaken n x xs _ (relink-Touches n xs p.2.1),
  )

  Touches-without :
      (i : ℕ) (xs : List ℕ) (ws : List Write) → Touches n (without i xs) ws → Touches n xs ws
  Touches-without i xs [] t = tt
  Touches-without i xs ((j, next) ∷ ws) t =
      (elem_of_without i j xs t.0, t.1, Touches-without i xs ws t.2)

  pub plain_remove-Holds :
      (q : List ℕ) (l : Links) (xs : List ℕ) (i : ℕ)
      → Plain n q l xs
      → elem i xs ≡ true
      → Plain n (plain_remove q l i).0 (write_all l (plain_remove q l i).1) (without i xs)
        × Touches n xs (plain_remove q l i).1
  plain_remove-Holds q l xs i p here =
      let e : without i q ≡ without i xs = ap (without i) p.0 in
      let a : AllBelow n (without i xs) = AllBelow-without n i xs p.2 in
      (
        Plain-relinked l _ _ e (IsDistinct-without i xs p.1) a,
        rw e (Touches-without i xs _ (relink-Touches n (without i xs) a)),
      )

  pub Plain-frame :
      (q : List ℕ) (l k : Links) (xs : List ℕ)
      → Plain n q l xs
      → ((i : ℕ) → elem i xs ≡ true → k i ≡ l i)
      → Plain n q k xs
  Plain-frame q l k xs p f = (p.0, p.1, p.2, Chain-frame l k xs p.3 f)

abbrev pub plain_queue : (capacity : ℕ) → IntrusiveQueue capacity
plain_queue n = record {
  Ends = List ℕ;
  fresh = [];
  head = first;
  push = plain_push;
  pop = plain_pop;
  remove = plain_remove;
  Holds = Plain n;
  fresh-Holds = λ l. (refl, tt, tt, tt);
  Holds-frame = Plain-frame n;
  Holds-chain = λ q l xs p. (ap first p.0, p.3);
  push-Holds = plain_push-Holds n;
  pop_empty = plain_pop_empty n;
  pop-Holds = plain_pop-Holds n;
  remove-Holds = plain_remove-Holds n;
}
