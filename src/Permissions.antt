-- ===== src/Permissions.antt =====
-- go-backend/service/forward.go: what a user may do with a tunnel.
pub mod Defs
pub mod Granted
