-- ===== src/Tests.antt =====
-- The theorems applied at concrete inputs.
mod Terminals
mod Screens
mod Sessions
mod Layouts
mod Registries
mod Restarts
mod Tunnels
mod Servers
