-- ===== src/Failover.antt =====
-- go-backend/service/failover.go: the switch of a node group to a healthy member.
pub mod Defs
pub mod Best
pub mod Switch
