-- ===== src/Ports.antt =====
-- go-backend/service/forward.go, the port allocation: which ports a node has in use, and the first
-- free port of its range. A `map[int]bool` of used ports is the list of its keys.
pub mod Defs
pub mod FirstFit
pub mod Claims
pub mod Exclusive
pub mod Routes
pub mod RouteDistinct
