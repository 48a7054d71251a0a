-- ===== src/Examples/Budgets.antt =====
-- The theorems on wait budgets, on the common loop and on the fail-closed mutex, applied.
use edp_threading.Base.{
  ℕ, suc, ◌+◌, ◌%◌, ◌<◌, ◌≤◌, ◌≡◌, ◌⊎◌, refl, true, false, some, leb, if◌then◌else◌, arith, inl,
}
use edp_threading.Wait.Budget.{pos, Delta, Measures, difference, for_duration, until, remaining}
use edp_threading.Wait.Budget.Laws.{for_duration-until}
use edp_threading.Wait.Loop.{SignalWaitResult, Environment, Target, Verdict, Course, wait_until}
use edp_threading.Wait.Loop.Justified.{Justified}
use edp_threading.Wait.Loop.Justified.Run.{wait_until-Justified}
use edp_threading.Wait.Loop.Termination.{Passes}
use edp_threading.Mutex.{
  LockAcquireResult, FailClosedOrdinaryMutexAcquireResult, FailClosedOrdinaryMutex, MutexProvider,
  target_failure_observation_nanoseconds, wait_slice_nanoseconds, acquire, acquire_loop,
}
use edp_threading.Mutex.FailClosed.{wait_slice_nanoseconds_lem, Returns, Tells, acquire-Tells}

-- A clock that measures every difference.
abbrev pub delta : Delta
delta from to = difference to from

delta-Measures : Measures delta
delta-Measures = (λ from to le small. ground arith, λ from to lt small. ground arith)

for_duration-until_example :
    remaining delta (for_duration (pos 10) 5) 7 ≡ remaining delta (until 15) 7
for_duration-until_example =
    for_duration-until delta 5 10 7 delta-Measures (omega arith) (omega arith) (omega arith)

-- The state is the instant: each wait takes one nanosecond, and the lock is always free.
abbrev ticking : Environment ℕ
ticking = record {
  acquire = λ s. (s, true);
  release = λ s. s;
  wait = λ context timeout s. (suc s, SignalWaitResult.timed_out);
  is_interrupted = λ context s. (s, false);
  monotonic_now = λ s. s;
  delta = delta;
}

-- The instant 4 is waited for.
abbrev fourth : Target ℕ
fourth = record {
  holds = λ s. leb 4 s;
  enrol = λ s. (s, some 0);
  refuse = λ s. s;
  settle = λ slot s. s;
  give_up = λ slot s. s;
}

ticking-Passes : Passes ticking fourth 1 (until 3) 3
unfolding remaining until
ticking-Passes = record {
  acquire_later = λ s. omega arith;
  release_later = λ s. omega arith;
  enrol_later = λ s. omega arith;
  look_later = λ s. omega arith;
  wait_later = λ n s. omega arith;
  ends = λ s late. ground (arith, late);
}

wait_until-Justified_example :
    (out : ℕ × Verdict) × (wait_until ticking fourth 1 (until 3) Course.rechecking 4 0 ≡ some out)
    × Justified ticking fourth 1 (until 3) 0 out
wait_until-Justified_example =
    wait_until-Justified ticking fourth 1 (until 3) 0 3 ticking-Passes Course.rechecking 4
      (omega arith)

wait_slice_nanoseconds_lem_example :
    (wait_slice_nanoseconds 300000 % 300000 ≡ 0)
    × (target_failure_observation_nanoseconds ≤ wait_slice_nanoseconds 300000)
    × ((wait_slice_nanoseconds 300000 ≡ 300000)
        ⊎ (wait_slice_nanoseconds 300000 < target_failure_observation_nanoseconds + 300000))
wait_slice_nanoseconds_lem_example = wait_slice_nanoseconds_lem 300000 (omega arith)

-- The mutex is granted in the second slice.
abbrev second_slice : MutexProvider ℕ
second_slice = record {
  acquire = λ slice m. (
    record m { world = suc m.world },
    if leb 1 m.world then LockAcquireResult.acquired else LockAcquireResult.timed_out,
  );
  release = λ m. (m, true);
  acquire_sticky = λ slice m failed. failed;
  release_sticky = λ m failed. failed;
}

abbrev unused : FailClosedOrdinaryMutex ℕ
unused = record { failed = false; world = 0 }

second_slice_granted :
    acquire second_slice 1 2 unused
    ≡ some (record { failed = false; world = 2 }, FailClosedOrdinaryMutexAcquireResult.acquired)
unfolding acquire acquire_loop
second_slice_granted = refl

acquire-Tells_example :
    (out : FailClosedOrdinaryMutex ℕ × FailClosedOrdinaryMutexAcquireResult) × (acquire second_slice
        1 2 unused
      ≡ some out)
    × Returns second_slice 1 1 unused out
    × Tells second_slice 1 out
acquire-Tells_example =
    acquire-Tells second_slice 1 1 2 unused (omega arith) (inl (λ e. absurd (cc)))
