-- ===== src/Wait/Registration.antt =====
-- src/threading/detail/WaitRegistration.hpp: a target's bounded set of waiter registrations. A slot
-- is inactive while its context index is the greatest number of the index type.
pub mod Laws
pub mod Wakes
use edp_threading.Base.{
  ◌≡◌, arith, ℕ, ◌+◌, ◌-◌, Bool, true, false, not, ◌&&◌, Option, none, some, ◌==◌, if◌then◌else◌,
  update, first_index, for_range,
}
use edp_threading.Topology.{BoundedIndex}

pub data WaitRegistrationStatus : Type 0 where
  registered capacity_unavailable : WaitRegistrationStatus

-- `std::numeric_limits<TContextIndex>::max()`, of the index type for a capacity.
abbrev pub inactive_context : BoundedIndex → ℕ → ℕ
inactive_context index contexts = index.modulus contexts - 1

pub record TaskWaitRegistration : Type 0 where
  pub record_index : ℕ
  pub phase : Bool
  pub waiting_context_index : ℕ

pub record ThreadJoinRegistration : Type 0 where
  pub phase : Bool
  pub waiting_context_index : ℕ

pub record AdmissionWaitRegistration : Type 0 where
  pub waiting_context_index : ℕ

pub record ShutdownWaitRegistration : Type 0 where
  pub waiting_context_index : ℕ

-- What RegistrationSet asks of a registration: IsActive, Clear and the default member values.
pub record Registration (R : Type 0) : Type 0 where
  pub is_active : R → Bool
  pub clear : R → R
  pub fresh : R
  pub is_active-clear : (r : R) → is_active (clear r) ≡ false
  pub is_active-fresh : is_active fresh ≡ false

module _ (sentinel : ℕ) where
  -- IsActive of each of the four registrations.
  abbrev pub is_waiting : ℕ → Bool
  is_waiting context = not (context == sentinel)

  pub not_waiting : is_waiting sentinel ≡ false
  not_waiting = ground arith

  abbrev pub task_wait : Registration TaskWaitRegistration
  task_wait = record {
    is_active = λ r. is_waiting r.waiting_context_index;
    clear = λ r. record r { waiting_context_index = sentinel };
    fresh = record { record_index = 0; phase = false; waiting_context_index = sentinel };
    is_active-clear = λ r. not_waiting;
    is_active-fresh = not_waiting;
  }

  abbrev pub thread_join : Registration ThreadJoinRegistration
  thread_join = record {
    is_active = λ r. is_waiting r.waiting_context_index;
    clear = λ r. record r { waiting_context_index = sentinel };
    fresh = record { phase = false; waiting_context_index = sentinel };
    is_active-clear = λ r. not_waiting;
    is_active-fresh = not_waiting;
  }

  abbrev pub admission_wait : Registration AdmissionWaitRegistration
  admission_wait = record {
    is_active = λ r. is_waiting r.waiting_context_index;
    clear = λ r. record r { waiting_context_index = sentinel };
    fresh = record { waiting_context_index = sentinel };
    is_active-clear = λ r. not_waiting;
    is_active-fresh = not_waiting;
  }

  abbrev pub shutdown_wait : Registration ShutdownWaitRegistration
  shutdown_wait = record {
    is_active = λ r. is_waiting r.waiting_context_index;
    clear = λ r. record r { waiting_context_index = sentinel };
    fresh = record { waiting_context_index = sentinel };
    is_active-clear = λ r. not_waiting;
    is_active-fresh = not_waiting;
  }

-- The slots of a RegistrationSet, by index.
abbrev pub RegistrationSet : Type 0 → Type 0
RegistrationSet R = ℕ → R

module _ {R : Type 0} (kind : Registration R) (capacity : ℕ) where
  abbrev pub no_registrations : RegistrationSet R
  no_registrations i = kind.fresh

  abbrev pub register_at :
      RegistrationSet R → R → ℕ → Option ℕ → RegistrationSet R × ℕ × WaitRegistrationStatus
  register_at s r index none = (s, index, WaitRegistrationStatus.capacity_unavailable)
  register_at s r index (some i) = (update s i r, i, WaitRegistrationStatus.registered)

  -- Register; `index` is the caller's variable, which a registration writes.
  unfoldable pub register :
      RegistrationSet R → R → ℕ → RegistrationSet R × ℕ × WaitRegistrationStatus
  unfolding first_index
  register s r index =
      register_at s r index (first_index capacity 0 (λ i. not (kind.is_active (s i))))

  -- Unregister.
  unfoldable pub unregister : RegistrationSet R → ℕ → RegistrationSet R
  unregister s i = update s i (kind.clear (s i))

  -- ActiveCount.
  unfoldable pub active_count : RegistrationSet R → ℕ
  unfolding for_range
  active_count s = for_range capacity 0 (λ i n. if kind.is_active (s i) then n + 1 else n) 0

  -- MatchingCount.
  unfoldable pub matching_count : RegistrationSet R → (R → Bool) → ℕ
  unfolding for_range
  matching_count s predicate =
      for_range capacity 0 (λ i n. if kind.is_active (s i) && predicate (s i) then n + 1 else n) 0

  -- VisitActive: the visitor may change the registration that it is given.
  unfoldable pub visit_active :
      {S : Type 0} → (R → S → R × S) → RegistrationSet R × S → RegistrationSet R × S
  unfolding for_range
  visit_active visitor start =
      for_range capacity 0
        (λ i at.
          if kind.is_active (at.0 i)
          then (update at.0 i (visitor (at.0 i) at.1).0, (visitor (at.0 i) at.1).1)
          else at)
        start

-- The slot of a registration, if it was made.
abbrev pub registered_slot :
    {R : Type 0} → RegistrationSet R × ℕ × WaitRegistrationStatus → RegistrationSet R × Option ℕ
registered_slot (s, i, WaitRegistrationStatus.registered) = (s, some i)
registered_slot (s, i, WaitRegistrationStatus.capacity_unavailable) = (s, none)
