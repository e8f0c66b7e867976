-- ===== src/Tests.antt =====
-- Runs of the theorems at concrete inputs.
mod Copying
mod Messages
mod Sessions
mod Datagrams
mod Clients
mod Routes
mod Destinations
mod Requests
mod Resolving
mod Loops
mod Paddings
mod Places
mod Relays
