-- ===== src/Topology.antt =====
-- go-backend/service: the tunnels, routes, nodes and speed limits that an administrator keeps.
pub mod Tunnels
pub mod Routes
pub mod Nodes
pub mod Limits
