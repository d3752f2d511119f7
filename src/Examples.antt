-- ===== src/Examples.antt =====
-- The theorems at concrete inputs, over fixed-point numbers.
mod Browser
mod Client
mod Clients
mod Data
mod Framing
mod Events
mod Servers
mod Subscribing
mod Threads
mod Field
mod Game
mod Listening
mod Messages
mod Pool
mod Viewer
