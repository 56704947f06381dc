-- ===== src/Forwards.antt =====
-- go-backend/service/forward.go: the handlers that pause, resume and delete a forward.
pub mod Steps
pub mod Routes
pub mod Handlers
pub mod Commands
pub mod Commits
pub mod Deletion
pub mod Authorization
pub mod Names
