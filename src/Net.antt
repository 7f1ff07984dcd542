-- ===== src/Net.antt =====
-- src/Net: the line protocol over a TCP connection, and its opening.
pub mod Stream
pub mod Socket
pub mod Server
