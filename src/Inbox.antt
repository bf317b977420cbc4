-- ===== src/Inbox.antt =====
-- The states of an ingest in crates/inbox, and the moves between them.
pub mod Status
mod Tests
