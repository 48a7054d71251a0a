-- ===== src/Mutex/FailClosed.antt =====
-- A failure of the mutex is final, and soon observed.
use edp_threading.Base.{
  ℕ, zero, suc, ◌+◌, ◌-◌, ◌*◌, ◌/◌, ◌%◌, ◌<◌, ◌≤◌, ◌≡◌, ◌⊎◌, refl, Bool, true, false, Option, some,
  leb, if◌then◌else◌, Bool-cases, inl, inr, ap, subst, sym, ◌∙◌, arith,
}
use mathlib.Core.Option.{some-injective, none-ne-some}
use native.Mathlib.Nat.{mod_self, div-add-mod, mod-lt, mul_comm, mul-mod_left}
use edp_threading.Mutex.{
  LockAcquireResult, FailClosedOrdinaryMutexAcquireResult, FailClosedOrdinaryMutexReleaseResult,
  FailClosedOrdinaryMutex, MutexProvider, target_failure_observation_nanoseconds,
  wait_slice_nanoseconds, Acquisition, given_back, granted_when, timed_out_when, after_slice,
  mark_failed, released_after, acquire_loop, acquire, release,
}
use edp_threading.Mutex.Slices.{Decides, slice_after, AnswersAt, loop_total}

-- A ceiling, in units.
ceiling : (a r : ℕ) → 0 < r → (a ≤ (a + r - 1) / r * r) × ((a + r - 1) / r * r < a + r)
ceiling a r positive =
    let whole = div-add-mod (a + r - 1) r in
    let part = mod-lt (a + r - 1) positive in
    let turned = mul_comm r ((a + r - 1) / r) in
    (omega (arith, whole, part, turned), omega (arith, whole, part, turned))

-- A slice is a whole number of the provider's resolution, no shorter than the target, and less
-- than one unit of the resolution longer than it, unless the resolution is coarser than that.
pub wait_slice_nanoseconds_lem :
    (resolution : ℕ)
    → 0 < resolution
    → (wait_slice_nanoseconds resolution % resolution ≡ 0)
      × (target_failure_observation_nanoseconds ≤ wait_slice_nanoseconds resolution)
      × ((wait_slice_nanoseconds resolution ≡ resolution)
          ⊎ (wait_slice_nanoseconds resolution
              < target_failure_observation_nanoseconds + resolution))
unfolding wait_slice_nanoseconds
wait_slice_nanoseconds_lem resolution positive =
    elim (Bool-cases (leb target_failure_observation_nanoseconds resolution)) [
      | inl coarse ↦ rw coarse (mod_self resolution, ground (arith, coarse), inl refl)
      | inr fine ↦
          let up = ceiling target_failure_observation_nanoseconds resolution positive in
          rw fine (
            mul-mod_left ((target_failure_observation_nanoseconds + resolution - 1) / resolution)
                resolution,
            up.0,
            inr up.1,
          )
    ]

module _ {W : Type 0} (provider : MutexProvider W) (resolution : ℕ) where
  -- An acquisition that ended on a mutex which had failed.
  abbrev pub Refuses : Acquisition provider resolution → Type 0
  Refuses out =
      (out.0.failed ≡ true)
      × ((out.1 ≡ FailClosedOrdinaryMutexAcquireResult.failed_state)
          ⊎ (out.1 ≡ FailClosedOrdinaryMutexAcquireResult.provider_failure))

  given_back-Refuses :
      (back : FailClosedOrdinaryMutex W × Bool)
      → back.0.failed ≡ true
      → Refuses (given_back provider resolution back)
  given_back-Refuses (m, true) failed = (failed, inl refl)
  given_back-Refuses (m, false) failed = (refl, inr refl)

  -- A slice on a mutex that has failed is the last.
  slice-Refuses :
      (slice : FailClosedOrdinaryMutex W × LockAcquireResult)
      (rest : Option (Acquisition provider resolution))
      → slice.0.failed ≡ true
      → (out : Acquisition provider resolution) × (after_slice provider resolution slice rest
          ≡ some out)
        × Refuses out
  slice-Refuses (m, LockAcquireResult.acquired) rest failed = (
    granted_when provider resolution true m,
    ap (λ b. some (granted_when provider resolution b m)) failed,
    given_back-Refuses (provider.release m) (provider.release_sticky m failed),
  )
  slice-Refuses (m, LockAcquireResult.timed_out) rest failed = (
    (m, FailClosedOrdinaryMutexAcquireResult.failed_state),
    ap (λ b. timed_out_when provider resolution b m rest) failed,
    (failed, inl refl),
  )
  slice-Refuses (m, LockAcquireResult.provider_failure) rest failed = (
    (mark_failed provider resolution m, FailClosedOrdinaryMutexAcquireResult.provider_failure),
    refl,
    (refl, inr refl),
  )

  -- Once the mutex has failed, nobody gets it any more: a thread that waits for it in the loop of
  -- Acquire returns after the slice in which the failure came, with FailedState or
  -- ProviderFailure, and the mutex stays failed.
  pub acquire_loop-Refuses :
      (fuel : ℕ) (m : FailClosedOrdinaryMutex W)
      → (provider.acquire (wait_slice_nanoseconds resolution) m).0.failed ≡ true
      → (out : Acquisition provider resolution) × (acquire_loop provider resolution (suc fuel) m
          ≡ some out)
        × Refuses out
  unfolding acquire_loop
  acquire_loop-Refuses fuel m failed =
      slice-Refuses (provider.acquire (wait_slice_nanoseconds resolution) m)
        (acquire_loop provider resolution fuel
          (provider.acquire (wait_slice_nanoseconds resolution) m).0)
        failed

  -- What an acquisition says of the failure.
  abbrev pub Tells : Acquisition provider resolution → Type 0
  Tells out =
      ((out.1 ≡ FailClosedOrdinaryMutexAcquireResult.acquired) × (out.0.failed ≡ false))
      ⊎ Refuses out

  granted-Tells :
      (b : Bool) (m : FailClosedOrdinaryMutex W)
      → m.failed ≡ b
      → Tells (granted_when provider resolution b m)
  granted-Tells true m e =
      inr (given_back-Refuses (provider.release m) (provider.release_sticky m e))
  granted-Tells false m e = inl (refl, e)

  timed_out-Tells :
      (b : Bool) (m : FailClosedOrdinaryMutex W) (rest : Option (Acquisition provider resolution))
      (out : Acquisition provider resolution)
      → m.failed ≡ b
      → (rest ≡ some out → Tells out)
      → timed_out_when provider resolution b m rest ≡ some out
      → Tells out
  timed_out-Tells true m rest out e later h = subst Tells (some-injective _ _ h) (inr (e, inl refl))
  timed_out-Tells false m rest out e later h = later h

  slice-Tells :
      (slice : FailClosedOrdinaryMutex W × LockAcquireResult)
      (rest : Option (Acquisition provider resolution)) (out : Acquisition provider resolution)
      → (rest ≡ some out → Tells out)
      → after_slice provider resolution slice rest ≡ some out
      → Tells out
  slice-Tells (m, LockAcquireResult.acquired) rest out later h =
      subst Tells (some-injective _ _ h) (granted-Tells m.failed m refl)
  slice-Tells (m, LockAcquireResult.timed_out) rest out later h =
      timed_out-Tells m.failed m rest out refl later h
  slice-Tells (m, LockAcquireResult.provider_failure) rest out later h =
      subst Tells (some-injective _ _ h) (inr (refl, inr refl))

  loop-Tells :
      (fuel : ℕ) (m : FailClosedOrdinaryMutex W) (out : Acquisition provider resolution)
      → acquire_loop provider resolution fuel m ≡ some out
      → Tells out
  unfolding acquire_loop
  loop-Tells zero m out h = absurd (none-ne-some out h)
  loop-Tells (suc fuel) m out h =
      let slice = provider.acquire (wait_slice_nanoseconds resolution) m in
      slice-Tells slice (acquire_loop provider resolution fuel slice.0) out
        (loop-Tells fuel slice.0 out) h

  returned-Tells :
      (fuel : ℕ) (m : FailClosedOrdinaryMutex W) (out : Acquisition provider resolution)
      → acquire provider resolution fuel m ≡ some out
      → Tells out
  unfolding acquire
  returned-Tells fuel m out h = elim (Bool-cases m.failed) [
    | inl failed ↦
        subst Tells
          (some-injective _ _ (
            sym (
              ap
                (λ b.
                  if b
                  then some (m, FailClosedOrdinaryMutexAcquireResult.failed_state)
                  else acquire_loop provider resolution fuel m)
                failed)
            ∙ h))
          (inr (failed, inl refl))
    | inr fine ↦ loop-Tells fuel m out (
        sym (
          ap
            (λ b.
              if b
              then some (m, FailClosedOrdinaryMutexAcquireResult.failed_state)
              else acquire_loop provider resolution fuel m)
            fine)
        ∙ h)
  ]

  -- What Acquire returns when the slice after `n` others decides.
  abbrev pub Returns : ℕ → FailClosedOrdinaryMutex W → Acquisition provider resolution → Type 0
  Returns n m out =
      ((m.failed ≡ true) × (out ≡ (m, FailClosedOrdinaryMutexAcquireResult.failed_state)))
      ⊎ ((m.failed ≡ false) × ((k : ℕ) × (k ≤ n) × AnswersAt provider resolution k m out))

  -- Acquire returns by the first slice that does not run out or that finds the mutex failed:
  -- whichever slice does so, fuel for it and the slices before it is enough. On a mutex that
  -- has failed it answers FailedState at once. Otherwise it answers to the first slice that
  -- decides, all before it having run out on a mutex that had not failed: Acquired for a
  -- granted mutex that has not failed; for one that has, it is given back, and the answer is
  -- FailedState, or ProviderFailure if that fails; FailedState for a slice that ran out on a
  -- mutex that has failed; and ProviderFailure, with the mutex marked as failed, for any
  -- other. So it answers Acquired only on a mutex on which no failure was found; otherwise it
  -- answers FailedState or ProviderFailure, and then the mutex has failed.
  pub acquire-Tells :
      (n fuel : ℕ) (m : FailClosedOrdinaryMutex W)
      → n < fuel
      → Decides provider resolution (slice_after provider resolution n m)
      → (out : Acquisition provider resolution) × (acquire provider resolution fuel m ≡ some out)
        × Returns n m out
        × Tells out
  unfolding acquire
  acquire-Tells n fuel m lt d =
      let first_look : Bool → Option (Acquisition provider resolution) = λ b.
        if b
        then some (m, FailClosedOrdinaryMutexAcquireResult.failed_state)
        else acquire_loop provider resolution fuel m in
      elim (Bool-cases m.failed) [
        | inl failed ↦
            let out : Acquisition provider resolution =
              (m, FailClosedOrdinaryMutexAcquireResult.failed_state) in
            let e = ap first_look failed in
            (out, e, inl (failed, refl), returned-Tells fuel m out e)
        | inr fine ↦
            let (out, looped, answers) = loop_total provider resolution n fuel m lt d in
            let e = ap first_look fine ∙ looped in
            (out, e, inr (fine, answers), returned-Tells fuel m out e)
      ]

  released-Refuses :
      (before : Bool) (back : FailClosedOrdinaryMutex W × Bool)
      → before ≡ true
      → back.0.failed ≡ true
      → ((released_after provider resolution before back).0.failed ≡ true)
        × (((released_after provider resolution before back).1
              ≡ FailClosedOrdinaryMutexReleaseResult.failed_state)
            ⊎ ((released_after provider resolution before back).1
                ≡ FailClosedOrdinaryMutexReleaseResult.provider_failure))
  released-Refuses before (m, true) failed still = (still, inl (rw failed refl))
  released-Refuses before (m, false) failed still = (refl, inr refl)

  -- A mutex that has failed stays so and serves nobody: its Acquire answers FailedState at once,
  -- and its Release FailedState or ProviderFailure.
  pub failed-IsFinal :
      (fuel : ℕ) (m : FailClosedOrdinaryMutex W)
      → m.failed ≡ true
      → (acquire provider resolution fuel m
          ≡ some (m, FailClosedOrdinaryMutexAcquireResult.failed_state))
        × ((release provider resolution m).0.failed ≡ true)
        × (((release provider resolution m).1 ≡ FailClosedOrdinaryMutexReleaseResult.failed_state)
            ⊎ ((release provider resolution m).1
                ≡ FailClosedOrdinaryMutexReleaseResult.provider_failure))
  unfolding acquire release
  failed-IsFinal fuel m failed =
      let out =
        released-Refuses m.failed (provider.release m) failed (provider.release_sticky m failed) in
      (
        ap
            (λ b.
              if b
              then some (m, FailClosedOrdinaryMutexAcquireResult.failed_state)
              else acquire_loop provider resolution fuel m)
            failed,
        out.0,
        out.1,
      )
