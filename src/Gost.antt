-- ===== src/Gost.antt =====
-- go-backend/pkg/gost.go: the objects and the commands that the panel sends to its nodes.
pub mod Names
pub mod Services
pub mod Commands
pub mod NamesAgree
pub mod RouteServices
pub mod RouteCommands
