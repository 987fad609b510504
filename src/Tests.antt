-- ===== src/Tests.antt =====
-- The theorems at concrete inputs, and runs of the definitions.
mod Wire
mod Routes
mod Sources
mod Sockets
mod Streams
mod Probes
mod Hellos
mod Settings
mod Configs
mod Loads
mod Places
mod Greetings
mod Answers
mod Tunnels
mod Tables
mod Choices
