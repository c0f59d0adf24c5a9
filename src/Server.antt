-- ===== src/Server.antt =====
-- internal/server: the stdio engine.
pub mod Frame
pub mod Run
pub mod Session
mod Tests
