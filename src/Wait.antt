-- ===== src/Wait.antt =====
-- Waiting: registrations of waiters.
pub mod Registration
pub mod Budget
pub mod Loop
