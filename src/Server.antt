-- ===== src/Server.antt =====
-- server/信令服务器.py: the signalling server. Its handlers run one at a time here, each with the clock
-- reading that it takes; `sends` and `closes` are what they do to the outside, in order.
pub mod Format
pub mod State
pub mod Join
pub mod Handlers
pub mod Config
pub mod Launcher
pub mod Network
pub mod Persist
pub mod Events
pub mod Listening
pub mod Tests
