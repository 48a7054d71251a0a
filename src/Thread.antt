-- ===== src/Thread.antt =====
-- Dedicated Threads.
pub mod Control
pub mod Runtime
