-- ===== src/Upstream.antt =====
-- upstream/: the client of the root hub and the queue of edits that it has not taken yet.
pub mod Client
pub mod Sync
