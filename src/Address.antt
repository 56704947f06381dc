-- ===== src/Address.antt =====
-- go-backend/service/forward.go: the addresses that forwards lead to.
pub mod Ip
pub mod Defs
pub mod RoundTrip
pub mod Private
