-- ===== src/Util.antt =====
-- src/Util: cookies, helpers and the log.
pub mod Cookie
pub mod Helpers
pub mod Logger
