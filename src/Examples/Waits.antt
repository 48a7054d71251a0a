-- ===== src/Examples/Waits.antt =====
-- The theorems on waiter registrations, applied to a set of two slots of which the first is taken.
use edp_threading.Base.{◌==◌, refl, if◌then◌else◌}
use edp_threading.Wait.Registration.{
  AdmissionWaitRegistration, RegistrationSet, admission_wait, register,
}
use edp_threading.Wait.Registration.Laws.{Registers, register_lem}

-- The context 3 is waiting.
abbrev waiter : AdmissionWaitRegistration
waiter = record { waiting_context_index = 3 }

abbrev one_waiter : RegistrationSet AdmissionWaitRegistration
one_waiter i = if i == 0 then waiter else record { waiting_context_index = 255 }

register_lem_example :
    Registers
      (admission_wait 255)
      2
      one_waiter
      waiter
      9
      (register (admission_wait 255) 2 one_waiter waiter 9)
register_lem_example = register_lem (admission_wait 255) 2 one_waiter waiter 9 refl
