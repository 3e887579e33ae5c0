-- ===== src/Client/Manager.antt =====
-- dpmp/link/manager.py: the manager of a room's connections. Its threads take `self.lock` around each change,
-- so each locked part, with the calls after it, is one step here.
pub mod State
pub mod Traces
pub mod Tests
pub mod Events
pub mod Sockets
pub mod Channels
pub mod Punching
pub mod Udp
pub mod Keepalive
pub mod Queries
