-- ===== src/Sound.antt =====
-- What the handlers keep of the panel's tables: targets of forwards, nodes of tunnels and hops of routes.
pub mod Defs
pub mod Hops
pub mod Nodes
pub mod Forwards
pub mod Creation
pub mod Changes
pub mod Paths
pub mod Routes
pub mod Tunnels
pub mod Users
pub mod Steps
