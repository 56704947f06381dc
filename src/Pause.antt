-- ===== src/Pause.antt =====
-- go-backend/service/flow.go, pauseForwardServices, and the lookups of go-backend/service/forward.go
-- that it uses: how forwards are paused on their nodes and in the database.
pub mod Defs
pub mod Loop
pub mod Exact
