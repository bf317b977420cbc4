-- ===== src/Jobs.antt =====
-- The durable queue of crates/jobs and crates/persistence: its commands, its rows, the operations on
-- the table and the settlement of leases.
pub mod Kinds
pub mod Commands
pub mod Rows
pub mod Table
pub mod Queue
pub mod Settlement
pub mod Tests
