-- ===== src/Facility/Core.antt =====
-- src/threading/detail/TaskFacilityCore.hpp, in five parts.
mod State
mod Admission
mod Execution
mod Observation
mod Ownership
unfoldable pub use State.*
unfoldable pub use Admission.*
unfoldable pub use Execution.*
unfoldable pub use Observation.*
unfoldable pub use Ownership.*
