-- ===== src/Path.antt =====
-- dpmp/link/path.py: keep-alive intervals, and the roles of the paths to one peer.
pub mod Keepalive
pub mod Roles
pub mod Scheduler
pub mod Tests
