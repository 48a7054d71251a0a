-- ===== src/Mutex/Slices.antt =====
-- The slices of an acquisition: which of them decides, and what is answered to it.
use edp_threading.Base.{
  ℕ, zero, suc, ◌<◌, ◌≤◌, ◌≡◌, ◌⊎◌, ◌≢◌, refl, Bool, true, false, Option, some, Bool-cases, inl,
  inr, ap, ◌∙◌, arith,
}
use edp_threading.Mutex.{
  LockAcquireResult, FailClosedOrdinaryMutexAcquireResult, FailClosedOrdinaryMutex, MutexProvider,
  wait_slice_nanoseconds, Acquisition, given_back, granted_when, timed_out_when, after_slice,
  mark_failed, acquire_loop,
}

module _ {W : Type 0} (provider : MutexProvider W) (resolution : ℕ) where
  -- The mutex after so many slices, and the slice that follows them.
  abbrev pub waited : ℕ → FailClosedOrdinaryMutex W → FailClosedOrdinaryMutex W
  waited zero m = m
  waited (suc n) m = waited n (provider.acquire (wait_slice_nanoseconds resolution) m).0

  abbrev pub slice_after :
      ℕ → FailClosedOrdinaryMutex W → FailClosedOrdinaryMutex W × LockAcquireResult
  slice_after n m = provider.acquire (wait_slice_nanoseconds resolution) (waited n m)

  -- A slice that does not run out, or finds that the mutex has failed.
  abbrev pub Decides : FailClosedOrdinaryMutex W × LockAcquireResult → Type 0
  Decides slice = (slice.1 ≢ LockAcquireResult.timed_out) ⊎ (slice.0.failed ≡ true)

  -- A slice that runs out on a mutex that has not failed.
  abbrev pub RunsOut : FailClosedOrdinaryMutex W × LockAcquireResult → Type 0
  RunsOut slice = (slice.1 ≡ LockAcquireResult.timed_out) × (slice.0.failed ≡ false)

  -- What is answered to a slice that decides; a mutex that is granted and has failed is given back.
  abbrev pub Answers :
      FailClosedOrdinaryMutex W × LockAcquireResult → Acquisition provider resolution → Type 0
  Answers slice out =
      let (back, well) = provider.release slice.0 in
      ((slice.1 ≡ LockAcquireResult.acquired)
        × (slice.0.failed ≡ false)
        × (out ≡ (slice.0, FailClosedOrdinaryMutexAcquireResult.acquired)))
      ⊎ ((slice.1 ≡ LockAcquireResult.acquired)
          × (slice.0.failed ≡ true)
          × (((well ≡ true) × (out ≡ (back, FailClosedOrdinaryMutexAcquireResult.failed_state)))
              ⊎ ((well ≡ false)
                  × (out ≡ (
                    record back { failed = true },
                    FailClosedOrdinaryMutexAcquireResult.provider_failure,
                  )))))
      ⊎ ((slice.1 ≡ LockAcquireResult.timed_out)
          × (slice.0.failed ≡ true)
          × (out ≡ (slice.0, FailClosedOrdinaryMutexAcquireResult.failed_state)))
      ⊎ ((slice.1 ≡ LockAcquireResult.provider_failure)
          × (out ≡ (
            record slice.0 { failed = true },
            FailClosedOrdinaryMutexAcquireResult.provider_failure,
          )))

  given_back_cases :
      (back : FailClosedOrdinaryMutex W × Bool)
      → ((back.1 ≡ true)
          × (given_back provider resolution back
              ≡ (back.0, FailClosedOrdinaryMutexAcquireResult.failed_state)))
        ⊎ ((back.1 ≡ false)
            × (given_back provider resolution back ≡ (
              record back.0 { failed = true },
              FailClosedOrdinaryMutexAcquireResult.provider_failure,
            )))
  given_back_cases (m, true) = inl (refl, refl)
  given_back_cases (m, false) = inr (refl, refl)

  -- After a slice the loop either ends, with the answer to it, or goes on.
  after_slice_cases :
      (slice : FailClosedOrdinaryMutex W × LockAcquireResult)
      (rest : Option (Acquisition provider resolution))
      → ((out : Acquisition provider resolution) × (after_slice provider resolution slice rest
            ≡ some out)
          × Answers slice out)
        ⊎ (RunsOut slice × (after_slice provider resolution slice rest ≡ rest))
  after_slice_cases (m, LockAcquireResult.acquired) rest = elim (Bool-cases m.failed) [
    | inr fine ↦ inl (
      granted_when provider resolution m.failed m,
      refl,
      inl (refl, fine, ap (λ b. granted_when provider resolution b m) fine),
    )
    | inl failed ↦ inl (
      granted_when provider resolution true m,
      ap (λ b. some (granted_when provider resolution b m)) failed,
      inr (inl (refl, failed, given_back_cases (provider.release m))),
    )
  ]
  after_slice_cases (m, LockAcquireResult.timed_out) rest = elim (Bool-cases m.failed) [
    | inl failed ↦ inl (
      (m, FailClosedOrdinaryMutexAcquireResult.failed_state),
      ap (λ b. timed_out_when provider resolution b m rest) failed,
      inr (inr (inl (refl, failed, refl))),
    )
    | inr fine ↦ inr ((refl, fine), ap (λ b. timed_out_when provider resolution b m rest) fine)
  ]
  after_slice_cases (m, LockAcquireResult.provider_failure) rest = inl (
    (mark_failed provider resolution m, FailClosedOrdinaryMutexAcquireResult.provider_failure),
    refl,
    inr (inr (inr (refl, refl))),
  )

  -- The slices before one run out, and the answer is that to it.
  abbrev pub AnswersAt : ℕ → FailClosedOrdinaryMutex W → Acquisition provider resolution → Type 0
  AnswersAt k m out = ((j : ℕ) → j < k → RunsOut (slice_after j m)) × Answers (slice_after k m) out

  AnswersAt-suc :
      (k : ℕ) (m : FailClosedOrdinaryMutex W) (out : Acquisition provider resolution)
      → RunsOut (slice_after 0 m)
      → AnswersAt k (slice_after 0 m).0 out
      → AnswersAt (suc k) m out
  AnswersAt-suc k m out first later = (earlier, later.1)
    where
      earlier : (j : ℕ) → j < suc k → RunsOut (slice_after j m)
      earlier zero lt = first
      earlier (suc j) lt = later.0 j (omega arith)

  not_deciding :
      (slice : FailClosedOrdinaryMutex W × LockAcquireResult) → RunsOut slice → Decides slice → ⊥
  not_deciding slice out (inl other) = other out.0
  not_deciding slice out (inr failed) = absurd (let fine = out.1 in cc)

  pub loop_total :
      (n fuel : ℕ) (m : FailClosedOrdinaryMutex W)
      → n < fuel
      → Decides (slice_after n m)
      → (out : Acquisition provider resolution) × (acquire_loop provider resolution fuel m
          ≡ some out)
        × ((k : ℕ) × (k ≤ n) × AnswersAt k m out)
  unfolding acquire_loop
  loop_total n zero m lt d = absurd (omega arith)
  loop_total zero (suc fuel) m lt d =
      let slice = slice_after 0 m in
      elim (after_slice_cases slice (acquire_loop provider resolution fuel slice.0)) [
        | inl (out, e, answers) ↦
            (out, e, (0, omega arith, (λ j below. absurd (omega arith), answers)))
        | inr (out, e) ↦ absurd (not_deciding slice out d)
      ]
  loop_total (suc n) (suc fuel) m lt d =
      let slice = slice_after 0 m in
      elim (after_slice_cases slice (acquire_loop provider resolution fuel slice.0)) [
        | inl (out, e, answers) ↦
            (out, e, (0, omega arith, (λ j below. absurd (omega arith), answers)))
        | inr (first, e) ↦
            let (out, later, (k, le, answers)) = loop_total n fuel slice.0 (omega arith) d in
            (out, e ∙ later, (suc k, omega arith, AnswersAt-suc k m out first answers))
      ]
