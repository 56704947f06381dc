-- ===== src/Model.antt =====
-- The database rows of go-backend/model: one record for each struct, with its fields in order.
-- Identifiers and ports are natural numbers; counters, limits, times and flags are Go integers, so
-- that their signs count. A `float64` is carried as its 64 bits. A pointer is an Option.
mod Accounts
mod Network
mod Groups
mod Clients
mod Limits
pub mod Database
pub use Accounts.*
pub use Network.*
pub use Groups.*
pub use Clients.*
pub use Limits.*
