-- ===== src/Task.antt =====
-- The Task record of src/threading/detail/TaskRecord.hpp and its parts: the packed control byte,
-- the payload with its type-erased operations, and the scratch field.
pub mod Control
pub mod Payload
pub mod Record
