-- ===== src/Rtp.antt =====
-- dpmp/link/rtp.py: the reliable byte stream over UDP, a module for each group of methods.
pub mod State
pub mod Sending
pub mod Receiving
pub mod Control
pub mod Packet
pub mod Transfer
pub mod Tests
