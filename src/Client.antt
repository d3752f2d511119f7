-- ===== src/Client.antt =====
-- src/client and include/client: the client that plays. Io is `ClientIO`, Gamer is `Gamer`, Options and Main
-- are gamer_main.cpp.
pub mod Connecting
pub mod Io
pub mod Gamer
pub mod Options
pub mod Main
