-- ===== src/Sys.antt =====
-- src/Sys, and the operating system that it and the rest of the program call.
pub mod Host
pub mod Network
pub mod Process
