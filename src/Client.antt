-- ===== src/Client.antt =====
-- The parts of dpmp/link that stand around the RTP channel: addresses, the signalling client, the
-- hole puncher, the discovery in the local network, and the manager that holds them together.
pub mod Address
pub mod Signaling
pub mod Replies
pub mod Holes
pub mod Net
pub mod Puncher
pub mod Setup
pub mod Discovery
pub mod Manager
pub mod Tests
