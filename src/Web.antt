-- ===== src/Web.antt =====
-- src/web-ui-client: the HTTP server that shows the game in a browser.
pub mod Request
pub mod Response
pub mod Viewer
pub mod Socket
pub mod Listening
pub mod Options
pub mod Reporting
pub mod Http
