-- ===== src/Thread.antt =====
-- src/Thread: threads, the recursive mutex, and scoped locks.
pub mod Mutex
pub mod Sections
pub mod Serial
pub mod Progress
pub mod Stuck
pub mod Lifetime
