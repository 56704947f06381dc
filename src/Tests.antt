-- ===== src/Tests.antt =====
-- Small panels with known answers: tests of the definitions, and each theorem at work on one of them.
mod Rows
mod Schedules
mod Naming
mod Accounting
mod Forwards
mod Ports
mod Addresses
mod Routes
mod Updates
mod Reconciles
mod Users
