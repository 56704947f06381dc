-- ===== src/Flow.antt =====
-- go-backend/service/flow.go: the panel's accounting of the traffic that nodes report, and what it
-- does to users and permissions that have used up their quota.
pub mod Defs
pub mod Limits
pub mod Enforcement
pub mod Report
