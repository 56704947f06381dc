-- ===== src/Create.antt =====
-- go-backend/service/forward.go: how a forward is created, on a tunnel or on a route.
pub mod Services
pub mod RouteServices
pub mod Handler
pub mod Route
pub mod Sends
pub mod RoutePath
pub mod Quiet
pub mod Outcome
pub mod RouteQuiet
pub mod RouteOutcome
