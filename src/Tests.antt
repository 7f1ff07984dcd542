-- ===== src/Tests.antt =====
-- A small machine, and the properties at concrete inputs.
pub mod Machine
mod Connections
mod Records
mod Nodes
mod Managers
mod Clients
mod Restarts
mod Threads
mod Logs
mod Servers
mod Histories
mod Making
mod Remotes
mod Commands
mod Failures
mod Reloads
mod Relays
mod Listings
mod Placements
