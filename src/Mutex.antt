-- ===== src/Mutex.antt =====
-- src/threading/FailClosedOrdinaryMutexProvider.hpp: a mutex that nobody gets any more once a call
-- of its provider has failed. The provider's mutex is a parameter; the spin lock that guards the
-- flag serializes its reads and writes, which are steps here.
pub mod FailClosed
pub mod Slices
use edp_threading.Base.{
  ℕ, zero, suc, ◌+◌, ◌-◌, ◌*◌, ◌/◌, ◌%◌, ◌≡◌, Bool, true, false, ◌||◌, Option, none, some, leb,
  if◌then◌else◌,
}

-- LockAcquireResult of the platform, and its other failures in one.
pub data LockAcquireResult : Type 0 where
  acquired timed_out provider_failure : LockAcquireResult

pub data FailClosedOrdinaryMutexAcquireResult : Type 0 where
  acquired failed_state provider_failure : FailClosedOrdinaryMutexAcquireResult

pub data FailClosedOrdinaryMutexReleaseResult : Type 0 where
  released failed_state provider_failure : FailClosedOrdinaryMutexReleaseResult

-- TargetFailureObservationNanoseconds.
abbrev pub target_failure_observation_nanoseconds : ℕ
target_failure_observation_nanoseconds = 1000000

-- WaitSliceNanoseconds, of the resolution of the provider's waits.
unfoldable pub wait_slice_nanoseconds : ℕ → ℕ
wait_slice_nanoseconds resolution =
    if leb target_failure_observation_nanoseconds resolution
    then resolution
    else (target_failure_observation_nanoseconds + resolution - 1) / resolution * resolution

-- The flag `_failed`, and the world of the provider and the other threads.
pub record FailClosedOrdinaryMutex (W : Type 0) : Type 0 where
  pub failed : Bool
  pub world : W

-- The provider's mutex. While a thread waits for it, others may find a failure and set the flag,
-- which nobody clears.
pub record MutexProvider (W : Type 0) : Type 0 where
  pub acquire : ℕ → FailClosedOrdinaryMutex W → FailClosedOrdinaryMutex W × LockAcquireResult
  pub release : FailClosedOrdinaryMutex W → FailClosedOrdinaryMutex W × Bool
  pub acquire_sticky :
      (slice : ℕ) (m : FailClosedOrdinaryMutex W)
      → m.failed ≡ true
      → (acquire slice m).0.failed ≡ true
  pub release_sticky :
      (m : FailClosedOrdinaryMutex W) → m.failed ≡ true → (release m).0.failed ≡ true

module _ {W : Type 0} (provider : MutexProvider W) (resolution : ℕ) where
  -- MarkFailed.
  abbrev pub mark_failed : FailClosedOrdinaryMutex W → FailClosedOrdinaryMutex W
  mark_failed m = record m { failed = true }

  abbrev pub Acquisition : Type 0
  Acquisition = FailClosedOrdinaryMutex W × FailClosedOrdinaryMutexAcquireResult

  -- After the release of a mutex that was granted and had failed.
  abbrev pub given_back : FailClosedOrdinaryMutex W × Bool → Acquisition
  given_back (m, true) = (m, FailClosedOrdinaryMutexAcquireResult.failed_state)
  given_back (m, false) = (mark_failed m, FailClosedOrdinaryMutexAcquireResult.provider_failure)

  -- The provider has granted its mutex: it is given back when a failure was found meanwhile.
  abbrev pub granted_when : Bool → FailClosedOrdinaryMutex W → Acquisition
  granted_when true m = given_back (provider.release m)
  granted_when false m = (m, FailClosedOrdinaryMutexAcquireResult.acquired)

  -- A slice has run out: the rest of the loop follows, unless a failure was found meanwhile.
  abbrev pub timed_out_when :
      Bool → FailClosedOrdinaryMutex W → Option Acquisition → Option Acquisition
  timed_out_when true m rest = some (m, FailClosedOrdinaryMutexAcquireResult.failed_state)
  timed_out_when false m rest = rest

  abbrev pub after_slice :
      FailClosedOrdinaryMutex W × LockAcquireResult → Option Acquisition → Option Acquisition
  after_slice (m, LockAcquireResult.acquired) rest = some (granted_when m.failed m)
  after_slice (m, LockAcquireResult.timed_out) rest = timed_out_when m.failed m rest
  after_slice (m, LockAcquireResult.provider_failure) rest =
      some (mark_failed m, FailClosedOrdinaryMutexAcquireResult.provider_failure)

  -- The loop of Acquire, on fuel for its slices: `none` says that it has not ended.
  unfoldable pub acquire_loop : ℕ → FailClosedOrdinaryMutex W → Option Acquisition
  unfolding wait_slice_nanoseconds
  acquire_loop zero m = none
  acquire_loop (suc fuel) m =
      let slice = provider.acquire (wait_slice_nanoseconds resolution) m in
      after_slice slice (acquire_loop fuel slice.0)

  -- Acquire.
  unfoldable pub acquire : ℕ → FailClosedOrdinaryMutex W → Option Acquisition
  unfolding acquire_loop
  acquire fuel m =
      if m.failed
      then some (m, FailClosedOrdinaryMutexAcquireResult.failed_state)
      else acquire_loop fuel m

  -- What a release answers; `before` is whether the mutex had failed before it.
  abbrev pub released_after :
      Bool
      → FailClosedOrdinaryMutex W × Bool
      → FailClosedOrdinaryMutex W × FailClosedOrdinaryMutexReleaseResult
  released_after before (m, true) = (
    m,
    if before || m.failed
        then FailClosedOrdinaryMutexReleaseResult.failed_state
        else FailClosedOrdinaryMutexReleaseResult.released,
  )
  released_after before (m, false) =
      (mark_failed m, FailClosedOrdinaryMutexReleaseResult.provider_failure)

  -- Release.
  unfoldable pub release :
      FailClosedOrdinaryMutex W → FailClosedOrdinaryMutex W × FailClosedOrdinaryMutexReleaseResult
  release m = released_after m.failed (provider.release m)
