-- ===== src/Application.antt =====
-- What stands on top of the manager: dpmp/stream/channel.py and examples/echo.py.
pub mod Channel
pub mod Echo
pub mod Tests
