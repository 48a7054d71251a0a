-- ===== src/Wait/Budget/Laws.antt =====
-- A wait that resumes gets what is left of its budget.
use edp_threading.Base.{
  ℕ, ◌+◌, ◌-◌, ◌^◌, ◌≤◌, ◌<◌, ◌≡◌, ◌∙◌, refl, sym, leb, if◌then◌else◌, arith, Bool-cases, inl, inr,
}
use edp_threading.Wait.Budget.{
  pos, WaitTimeout, Delta, Measures, timeout_of, for_duration, until, remaining,
}

-- What is left until a deadline.
abbrev pub time_left : ℕ → ℕ → WaitTimeout
time_left deadline now =
    if leb deadline now then WaitTimeout.no_wait else WaitTimeout.for_nanoseconds (deadline - now)

left : (k : ℕ) → k < 2 ^ 63 → 0 < k → timeout_of (pos k) ≡ WaitTimeout.for_nanoseconds k
left k small some = ground arith

-- An absolute budget leaves what is left until its deadline, on a clock that measures.
until_lem :
    (delta : Delta) (deadline now : ℕ)
    → Measures delta
    → deadline - now < 2 ^ 63
    → remaining delta (until deadline) now ≡ time_left deadline now
unfolding remaining until
until_lem delta deadline now m small = elim (Bool-cases (leb deadline now)) [
  | inl late ↦ rw late refl
  | inr early ↦
      rw (early, m.0 now deadline (ground arith) small, left (deadline - now) small (ground arith))
        refl
]

-- A relative budget never restarts: at every later instant, it leaves what an absolute one
-- leaves whose deadline is its duration after the instant at which it began.
for_duration_lem :
    (delta : Delta) (start k now : ℕ)
    → Measures delta
    → start ≤ now
    → now - start < 2 ^ 63
    → k < 2 ^ 63
    → remaining delta (for_duration (pos k) start) now ≡ time_left (start + k) now
unfolding remaining for_duration
for_duration_lem delta start k now m later near small = rw (m.0 start now later near) (ground arith)

-- A relative budget never restarts: at every instant from its beginning on, it leaves the same
-- timeout as the absolute budget whose deadline is its duration after its beginning. The clock
-- measures, the duration is not negative, and it and the time that went by are less than 2 ^ 63.
pub for_duration-until :
    (delta : Delta) (start k now : ℕ)
    → Measures delta
    → start ≤ now
    → now - start < 2 ^ 63
    → k < 2 ^ 63
    → remaining delta (for_duration (pos k) start) now ≡ remaining delta (until (start + k)) now
for_duration-until delta start k now m later near small =
    for_duration_lem delta start k now m later near small
    ∙ sym (until_lem delta (start + k) now m (omega arith))
