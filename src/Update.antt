-- ===== src/Update.antt =====
-- go-backend/service/forward.go: how a forward is changed.
pub mod Services
pub mod Handler
pub mod Route
pub mod Entry
pub mod Relates
pub mod Frame
pub mod Quiet
pub mod KeptTunnel
pub mod Kept
pub mod Framed
pub mod Rename
