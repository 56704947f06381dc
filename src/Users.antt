-- ===== src/Users.antt =====
-- go-backend/service/user.go and user_tunnel.go: the administration of users and of what they may use.
pub mod Access
pub mod Deletion
pub mod Erased
pub mod Permissions
pub mod Changes
pub mod Requests
pub mod Editing
pub mod Derived
pub mod Removed
