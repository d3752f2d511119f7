-- ===== src/Server.antt =====
-- The game server, src/server.
pub mod Config
pub mod Framing
pub mod Game
pub mod GameState
pub mod Managers
pub mod Wiring
