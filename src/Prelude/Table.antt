-- ===== src/Prelude/Table.antt =====
-- Tables of the database as lists of rows in primary-key order, with the queries that the code
-- makes of them: First, Find, Count, Updates and Delete under a condition on the row.
mod Queries
mod Keys
mod Rows
mod Deletion
pub use Queries.*
pub use Keys.*
pub use Rows.*
pub use Deletion.*
