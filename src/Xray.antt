-- ===== src/Xray.antt =====
-- go-backend/service/flow.go, the traffic reports of Xray clients.
pub mod Defs
pub mod Limits
