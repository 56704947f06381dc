-- ===== src/Reconcile.antt =====
-- go-backend/service/reconcile.go: a node that reconnects is sent what the database says of it.
pub mod Gentle
pub mod Defs
pub mod Quiet
pub mod Invariant
pub mod Kept
