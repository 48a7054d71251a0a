-- ===== src/Facility/Admission/Placement.antt =====
-- TaskFacilityCore::Admit keeps the core well formed.
use edp_threading.Base.{
  ℕ, ◌<◌, ◌≡◌, refl, true, false, some, List, [], ◌∷◌, ◌++◌, ◌==◌, update, elem, arith, Bool-cases,
  inl, inr, ==_iff, IsDistinct-snoc, elem-append, ==_refl, or_false,
}
use edp_threading.Topology.{Topology, write_all, Touches}
use edp_threading.Task.Control.{initialize_queued}
use edp_threading.Task.Control.Laws.{initialize_queued_lem}
use edp_threading.Task.Payload.{Adapter, construct_callable}
use edp_threading.Task.Record.{TaskRecord, queue_next}
use edp_threading.Facility.Core.{TaskFacilityCore, links, set_record, queue_push, admit_into}
use edp_threading.Facility.Invariant.{Inv, IsRecordOk}
use edp_threading.Facility.Frame.{requeued-Inv}

-- The record that a callable is placed in.
abbrev pub admitted_record : TaskRecord → ℕ → Adapter → TaskRecord
admitted_record r f a = record r {
  control = initialize_queued r.control;
  payload = construct_callable f r.payload;
  operations = some a;
}

module _ (t : Topology) where
  admitted_record-link :
      (r : ℕ → TaskRecord) (i k f : ℕ) (a : Adapter)
      → queue_next t (update r i (admitted_record (r i) f a) k) ≡ queue_next t (r k)
  unfolding queue_next
  admitted_record-link r i k f a = elim (Bool-cases (i == k)) [
    | inl e ↦ rw (e, (==_iff i k).0 e) refl
    | inr e ↦ rw e
  ]

  admitted_record-ok :
      (r : TaskRecord) (f : ℕ) (a : Adapter)
      → IsRecordOk true false r
      → IsRecordOk false true (admitted_record r f a)
  admitted_record-ok r f a ok =
      let fields = initialize_queued_lem r.control ok.1 in
      rw (fields.0, fields.1, ok.0.2) ((refl, refl, tt), fields.3)

  -- Record `i` is free, and its bit is cleared in `m`.
  pub admit_into-Inv :
      (c : TaskFacilityCore t) (q : List ℕ) (f : ℕ) (a : Adapter) (i : ℕ)
      → Inv t c q
      → i < t.records
      → t.availability.is_set c.availability i ≡ true
      → let m = (t.availability.clear c.availability i).0 in
        Inv t (admit_into t (record c { availability = m }) f a i) (q ++ i ∷ [])
  unfolding admit_into queue_push
  admit_into-Inv c q f a i v lt free =
      requeued-Inv t placed m (t.queue.push c.ends (links t placed.records) i).0
        (t.queue.push c.ends (links t placed.records) i).1 (q ++ i ∷ []) (q ++ i ∷ []) pushed.0
        pushed.1 (IsDistinct-snoc q i v.distinct absent) members fits
    where
      m : t.availability.Members
      m = (t.availability.clear c.availability i).0

      placed : TaskFacilityCore t
      placed = set_record t (record c { availability = m }) i (admitted_record (c.records i) f a)

      was_free : IsRecordOk true (elem i q) (c.records i)
      was_free = rw free at (v.ok i lt)

      absent : elem i q ≡ false
      absent = was_free.0.0

      same_links : (k : ℕ) → links t placed.records k ≡ links t c.records k
      same_links k = admitted_record-link c.records i k f a

      pushed :
          t.queue.Holds
            (t.queue.push c.ends (links t placed.records) i).0
            (write_all (links t placed.records) (t.queue.push c.ends (links t placed.records) i).1)
            (q ++ i ∷ [])
          × Touches t.records (q ++ i ∷ []) (t.queue.push c.ends (links t placed.records) i).1
      pushed =
          t.queue.push-Holds c.ends (links t placed.records) q i
            (t.queue.Holds-frame c.ends (links t c.records) (links t placed.records) q v.holds
              (λ k _. same_links k))
            lt absent

      members : (k : ℕ) → elem k (q ++ i ∷ []) ≡ true → k < t.records
      members k here = elim (Bool-cases (elem k q)) [
        | inl old ↦ v.members k old
        | inr new ↦ ground (arith, elem-append k q (i ∷ []))
      ]

      fits :
          (k : ℕ)
          → k < t.records
          → IsRecordOk (t.availability.is_set m k) (elem k (q ++ i ∷ [])) (placed.records k)
      fits k below = elim (Bool-cases (i == k)) [
        | inl e ↦
            let same : i ≡ k = (==_iff i k).0 e in
            rw
              (
                ← same,
                elem-append i q (i ∷ []),
                t.availability.is_set-clear c.availability i i lt lt,
                ==_refl i,
                absent,
              )
              (admitted_record-ok (c.records i) f a (rw absent at was_free))
        | inr e ↦
            rw
              (elem-append k q (i ∷ []), t.availability.is_set-clear c.availability i k lt below, e)
              (rw or_false (v.ok k below))
      ]
