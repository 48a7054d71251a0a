-- ===== src/Facility/Frame.antt =====
-- What the queue operations and a write to one record leave alone.
use edp_threading.Base.{
  ℕ, ◌<◌, ◌≡◌, ◌∙◌, refl, ap, Bool, true, false, Option, List, [], ◌∷◌, ◌==◌, update, elem, arith,
  IsDistinct, Bool-cases, inl, inr, ==_iff,
}
use edp_threading.Topology.{Topology, Links, Write, write_all, Touches}
use edp_threading.Task.Record.{TaskRecord, set_queue_next, queue_next}
use edp_threading.Task.Record.Laws.{queue_next-set_queue_next}
use edp_threading.Facility.Core.{TaskFacilityCore, write_records, links, set_record}
use edp_threading.Facility.Invariant.{Inv, IsRecordOk}

-- Two records that differ in their scratch field only.
abbrev pub SameButScratch : TaskRecord → TaskRecord → Type 0
SameButScratch r s =
    (r.payload ≡ s.payload) × (r.control ≡ s.control) × (r.operations ≡ s.operations)

module _ (t : Topology) where
  set_queue_next-SameButScratch :
      (r : TaskRecord) (next : Option ℕ) → SameButScratch (set_queue_next t r next) r
  unfolding set_queue_next
  set_queue_next-SameButScratch r next = (refl, refl, refl)

  pub write_records-SameButScratch :
      (ws : List Write) (r : ℕ → TaskRecord) (j : ℕ) → SameButScratch (write_records t r ws j) (r j)
  write_records-SameButScratch [] r j = (refl, refl, refl)
  write_records-SameButScratch ((i, next) ∷ ws) r j = ground (
    arith,
    write_records-SameButScratch ws (update r i (set_queue_next t (r i) next)) j,
    set_queue_next-SameButScratch (r i) next,
  )

  pub write_records_other :
      (ws : List Write) (xs : List ℕ) (n : ℕ) (r : ℕ → TaskRecord) (j : ℕ)
      → Touches n xs ws
      → elem j xs ≡ false
      → write_records t r ws j ≡ r j
  write_records_other [] xs n r j h out = refl
  write_records_other ((i, next) ∷ ws) xs n r j h out =
      ground
        (arith, write_records_other ws xs n (update r i (set_queue_next t (r i) next)) j h.2 out)

  -- The links of the records after the calls of SetQueueNext are those that the queue wrote.
  pub links-write_records :
      (ws : List Write) (xs : List ℕ) (r : ℕ → TaskRecord) (l : Links) (j : ℕ)
      → Touches t.records xs ws
      → ((k : ℕ) → links t r k ≡ l k)
      → links t (write_records t r ws) j ≡ write_all l ws j
  links-write_records [] xs r l j h same = same j
  links-write_records ((i, next) ∷ ws) xs r l j h same =
      links-write_records ws xs (update r i (set_queue_next t (r i) next)) (update l i next) j h.2
        λ k. elim (Bool-cases (i == k)) [
          | inl e ↦ rw e (queue_next-set_queue_next t (r i) next h.1)
          | inr e ↦ rw e (same k)
        ]

  -- A write to one record keeps the core well formed, if the record fits its place and its link
  -- stands or is not in use.
  pub set_record-Inv :
      (c : TaskFacilityCore t) (q : List ℕ) (k : ℕ) (r : TaskRecord)
      → Inv t c q
      → (elem k q ≡ true → queue_next t r ≡ queue_next t (c.records k))
      → IsRecordOk (t.availability.is_set c.availability k) (elem k q) r
      → Inv t (set_record t c k r) q
  set_record-Inv c q k r v link fits = record {
    holds = t.queue.Holds-frame c.ends (links t c.records) _ q v.holds λ i here.
        elim (Bool-cases (k == i)) [
          | inl e ↦
              let p : k ≡ i = (==_iff k i).0 e in rw e (link (rw p here) ∙ ap (links t c.records) p)
          | inr e ↦ rw e
        ];
    distinct = v.distinct;
    members = v.members;
    ok = λ i lt. elim (Bool-cases (k == i)) [
      | inl e ↦ let p : k ≡ i = (==_iff k i).0 e in rw e (rw p at fits)
      | inr e ↦ rw e (v.ok i lt)
    ];
  }

  pub SameButScratch-IsRecordOk :
      (available queued : Bool) (r s : TaskRecord)
      → SameButScratch r s
      → IsRecordOk available queued s
      → IsRecordOk available queued r
  SameButScratch-IsRecordOk available queued r s same ok = rw (same.0, same.1, same.2) ok

  -- The core after a queue operation is well formed, if each record fits its place in the new
  -- queue.
  pub requeued-Inv :
      (c : TaskFacilityCore t) (m : t.availability.Members) (e : t.queue.Ends) (ws : List Write)
      (xs q : List ℕ)
      → t.queue.Holds e (write_all (links t c.records) ws) q
      → Touches t.records xs ws
      → IsDistinct q
      → ((i : ℕ) → elem i q ≡ true → i < t.records)
      → ((i : ℕ) → i < t.records → IsRecordOk (t.availability.is_set m i) (elem i q) (c.records i))
      → Inv t (record { records = write_records t c.records ws; availability = m; ends = e }) q
  requeued-Inv c m e ws xs q holds touches distinct members ok = record {
    holds =
        t.queue.Holds-frame e (write_all (links t c.records) ws) _ q holds
          (λ i _. links-write_records ws xs c.records (links t c.records) i touches (λ k. refl));
    distinct = distinct;
    members = members;
    ok = λ i lt.
        SameButScratch-IsRecordOk (t.availability.is_set m i) (elem i q)
          (write_records t c.records ws i) (c.records i)
          (write_records-SameButScratch ws c.records i) (ok i lt);
  }

  -- The core after a queue operation that takes record `k` out, and a write to that record.
  pub taken_out-Inv :
      (c : TaskFacilityCore t) (e : t.queue.Ends) (ws : List Write) (xs q : List ℕ) (k : ℕ)
      (r : TaskRecord)
      → t.queue.Holds e (write_all (links t c.records) ws) q
      → Touches t.records xs ws
      → IsDistinct q
      → ((i : ℕ) → elem i q ≡ true → i < t.records)
      → elem k q ≡ false
      → IsRecordOk (t.availability.is_set c.availability k) false r
      → ((i : ℕ)
          → i < t.records
          → (k == i) ≡ false
          → IsRecordOk (t.availability.is_set c.availability i) (elem i q) (c.records i))
      → Inv t (record c { records = update (write_records t c.records ws) k r; ends = e }) q
  taken_out-Inv c e ws xs q k r holds touches distinct members out fits ok = record {
    holds = t.queue.Holds-frame e (write_all (links t c.records) ws) _ q holds λ i here.
        rw (apart i here)
          (links-write_records ws xs c.records (links t c.records) i touches (λ j. refl));
    distinct = distinct;
    members = members;
    ok = λ i lt. elim (Bool-cases (k == i)) [
      | inl same ↦ let p : k ≡ i = (==_iff k i).0 same in rw (same, ← p, out) fits
      | inr other ↦ rw other (
          SameButScratch-IsRecordOk (t.availability.is_set c.availability i) (elem i q)
            (write_records t c.records ws i) (c.records i)
            (write_records-SameButScratch ws c.records i) (ok i lt other))
    ];
  }
    where
      apart : (i : ℕ) → elem i q ≡ true → (k == i) ≡ false
      apart i here = elim (Bool-cases (k == i)) [
        | inl same ↦ absurd (ground (arith, (==_iff k i).0 same))
        | inr other ↦ other
      ]

  -- The same for a write that keeps the scratch field.
  pub set_record_same_scratch-Inv :
      (c : TaskFacilityCore t) (q : List ℕ) (k : ℕ) (r : TaskRecord)
      → Inv t c q
      → r.scratch ≡ (c.records k).scratch
      → IsRecordOk (t.availability.is_set c.availability k) (elem k q) r
      → Inv t (set_record t c k r) q
  unfolding queue_next
  set_record_same_scratch-Inv c q k r v same fits = set_record-Inv c q k r v (λ here. rw same) fits
