-- ===== src/Publisher.antt =====
-- The publisher: intents, texts and channels of crates/publisher, and the posts of crates/persistence with
-- their commands, sends, slots and settlement.
pub mod Intent
pub mod Channel
pub mod Posts
pub mod Slots
pub mod Store
pub mod Queue
pub mod Hashes
pub mod Commands
pub mod Creation
pub mod Settlement
pub mod Repository
mod Tests
