-- ===== src/ResetFlow.antt =====
-- go-backend/task/reset_flow.go: the daily reset of traffic counters and the daily check of expiry.
pub mod Defs
pub mod Calendar
pub mod Exact
pub mod Expiry
pub mod Permissions
