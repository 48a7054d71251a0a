-- ===== src/Wait/Budget.antt =====
-- src/threading/detail/MonotonicWaitBudget.hpp: a budget for waiting, and the timeout that is left of
-- it at an instant. A timestamp is a number of nanoseconds; the clock's differences are a parameter.
pub mod Laws
use edp_threading.Base.{
  ℕ, suc, ◌+◌, ◌-◌, ◌%◌, ◌^◌, ◌≤◌, ◌<◌, ◌≡◌, Bool, true, false, leb, ltb, if◌then◌else◌,
}

-- `negsuc n` is -(n + 1).
pub data ℤ : Type 0 where
  pos : ℕ → ℤ
  negsuc : ℕ → ℤ

abbrev pub is_positive : ℤ → Bool
is_positive (pos n) = ltb 0 n
is_positive (negsuc n) = false

-- `a >= b`.
abbrev pub at_least : ℤ → ℤ → Bool
at_least (pos a) (pos b) = leb b a
at_least (pos a) (negsuc b) = true
at_least (negsuc a) (pos b) = false
at_least (negsuc a) (negsuc b) = leb a b

-- `a - b`, of numbers that are not negative.
abbrev pub difference : ℕ → ℕ → ℤ
difference a b = if leb b a then pos (a - b) else negsuc (b - a - 1)

-- `static_cast<std::uint64_t>`.
abbrev pub to_uint64 : ℤ → ℕ
to_uint64 (pos n) = n % 2 ^ 64
to_uint64 (negsuc n) = 2 ^ 64 - 1 - n % 2 ^ 64

-- The timeout of a wait of the platform.
pub data WaitTimeout : Type 0 where
  forever no_wait : WaitTimeout
  for_nanoseconds : ℕ → WaitTimeout

abbrev pub is_no_wait : WaitTimeout → Bool
is_no_wait WaitTimeout.no_wait = true
is_no_wait _ = false

pub data MonotonicWaitMode : Type 0 where
  forever relative deadline : MonotonicWaitMode

pub record MonotonicWaitBudget : Type 0 where
  pub mode : MonotonicWaitMode
  pub start_time : ℕ
  pub duration : ℤ
  pub deadline_time : ℕ

-- `Delta(from, to).Nanoseconds()` of the clock, for two timestamps in that order.
abbrev pub Delta : Type 0
Delta = ℕ → ℕ → ℤ

-- What the clock says of Delta: the difference, while it is less than 2 ^ 63 in size.
abbrev pub Measures : Delta → Type 0
Measures delta =
    ((from to : ℕ) → from ≤ to → to - from < 2 ^ 63 → delta from to ≡ pos (to - from))
    × ((from to : ℕ) → to < from → from - to ≤ 2 ^ 63 → delta from to ≡ negsuc (from - to - 1))

-- Forever.
unfoldable pub forever_budget : MonotonicWaitBudget
forever_budget = record {
  mode = MonotonicWaitMode.forever;
  start_time = 0;
  duration = pos 0;
  deadline_time = 0;
}

-- For, at the instant `now`.
unfoldable pub for_duration : ℤ → ℕ → MonotonicWaitBudget
for_duration d now = record {
  mode = MonotonicWaitMode.relative;
  start_time = now;
  duration = d;
  deadline_time = 0;
}

-- Until.
unfoldable pub until : ℕ → MonotonicWaitBudget
until d = record {
  mode = MonotonicWaitMode.deadline;
  start_time = 0;
  duration = pos 0;
  deadline_time = d;
}

-- The nanoseconds that are left, if they are.
abbrev pub timeout_of : ℤ → WaitTimeout
timeout_of left =
    if is_positive left then WaitTimeout.for_nanoseconds (to_uint64 left) else WaitTimeout.no_wait

-- `elapsed > 0 ? elapsed : 0`.
abbrev pub normalized : ℤ → ℕ
normalized (pos n) = n
normalized (negsuc n) = 0

-- A budget of a number of nanoseconds from which others have elapsed.
abbrev pub relative_timeout : ℤ → ℤ → WaitTimeout
relative_timeout (negsuc b) elapsed = WaitTimeout.no_wait
relative_timeout (pos b) elapsed =
    if is_positive (pos b)
    then (if at_least elapsed (pos b)
        then WaitTimeout.no_wait
        else WaitTimeout.for_nanoseconds (to_uint64 (difference b (normalized elapsed))))
    else WaitTimeout.no_wait

-- Remaining, at the instant `now`.
unfoldable pub remaining : Delta → MonotonicWaitBudget → ℕ → WaitTimeout
remaining delta b now = elim (b.mode) [
  | MonotonicWaitMode.forever ↦ WaitTimeout.forever
  | MonotonicWaitMode.deadline ↦
      if leb b.deadline_time now
      then WaitTimeout.no_wait
      else timeout_of (delta now b.deadline_time)
  | MonotonicWaitMode.relative ↦ relative_timeout b.duration (delta b.start_time now)
]
