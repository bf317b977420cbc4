-- ===== src/Lib.antt =====
-- sooqa collects videos and pictures, recognises repeats and publishes them to Telegram channels.
-- A worker claims jobs from a durable queue in PostgreSQL, runs their handlers, and settles the
-- lease of each; the fingerprint of a video, a grid of samples, is compared with those of the
-- library by a local alignment, whose evidence decides whether the video is a duplicate; an
-- ingest moves through its statuses as its jobs succeed or fail.
--
-- VideoSequence models crates/media/src/video_sequence.rs: the data and checks (Defs), the grid
-- of timestamps (Grid), the binary codec (Codec, with `encode` and `decode`) and
-- `derive_search_tokens` (Tokens). Unsigned fields are numbers whose ranges `SampleFits` and
-- `FingerprintFits` state; an `i8` is an integer.
--
-- Alignment models crates/media/src/sequence_alignment.rs: configuration and classification
-- (Config), distances and pair scores (Score), the row-major table of `align_video_sequences`
-- (Table), `backtrack` (Backtrack), `evidence_from_path` (Evidence) and the whole function
-- (Align). The loops are recursion on the rounds left or on the two indices, so they need no
-- fuel. Scores are unbounded integers: with at most 2048 samples a side they stay far inside an
-- `i32`.
--
-- Jobs models crates/jobs/src/lib.rs (Kinds, Commands) and, of crates/persistence/src, jobs.rs
-- (Rows, Table, Queue) and the queue's part of settlement.rs and cleanup.rs (Settlement, with what
-- `settle` makes of a lost lease in Settlement/Fallback). The
-- table `queue.jobs` is a list of rows; a statement is a function on it, with `now()`, the clock
-- and fresh ids as arguments (the worker's own clock apart from the database's); an operation
-- returns its result with the table after it. A statement whose condition fixes the id updates
-- one row at most. Times are ticks, and a lease's duration is not rounded through a
-- floating-point number. serde is the parameter `Serde`, whose round trip `IsLawful` states.
-- Other transactions act between two operations, not inside one: the rows that an operation works
-- on are locked, and a claim meets no row that another one has locked.
--
-- Inbox models the statuses of crates/inbox/src/lib.rs and their transitions (Status).
--
-- Publisher models the checks of crates/publisher/src/lib.rs: publication intents, request keys
-- and captions (Intent, with `decision_allowed` of crates/persistence/src/publisher.rs) and
-- channels (Channel). A text there is the list of its code points; the time zones of chrono_tz
-- are a parameter. From crates/persistence/src/publisher.rs it models the states and the rows of
-- posts (Posts), the search for a slot of a channel's cadence (Slots), the hashes of requests
-- (Hashes), the jobs that a post keeps in the queue (Queue), and the operations on posts: the
-- commands of a user (Commands/Edits, Schedules and Decisions), the send under a lease
-- (Commands/Sending), `create_post_idempotent` (Creation), and all of them as transactions on one
-- store (Repository, which also gathers the commands and the ends of a send into one data type each,
-- to speak of their sequences). Settlement composes the queue's settlement and recovery of a publication's
-- job with the settlement of its post.
--
-- The store of Publisher holds the tables of posts, channels, media and jobs. A transaction (Store)
-- is a function from the store to a result and a store; where the result is an error, or a column's
-- range would be left (`fits_columns`), the tables are as before. An UPDATE is `update_where` on
-- the rows, its condition and its assignments written out. `Moment` holds the clocks and the fresh
-- id, `Environment` what the code takes from other packages: serde, sha2, uuid, chrono and chrono_tz.
-- A time is a number of nanoseconds; `Chrono` says which local times an instant has, and the theorems
-- name what they use of it. The search for a slot makes the rounds of the source, 370 days and
-- 10,000 candidates; the loop over one day makes as many rounds as the interval fits into the
-- window, rounded up, which reaches its end.
--
-- Disk models crates/media/src/disk.rs as on Unix; `statvfs` is a parameter.
-- Polling models `PollBackoff` of crates/telegram/src/polling.rs, with durations in nanoseconds.
--
-- Prelude holds the shared helpers: Boolean tests, lists over native numbers, results, integers,
-- bytes and texts, and tables of rows with their statements (Tables).
--
-- Not modelled: the floating-point hashes of frames, the processes, network and files of the rest
-- of crates/media, the Telegram client but for its back-off, the HTTP API, configuration and
-- start-up, the repositories of the library and the inbox, and the dispatch of a settlement to their
-- families. Of the publisher's repository, the operations on channels, the listings, and the
-- insertion of intended posts (`create_publication_intent` and `materialize_ingest`) are not
-- modelled.
pub mod Prelude
pub mod VideoSequence
pub mod Alignment
pub mod Jobs
pub mod Inbox
pub mod Publisher
pub mod Disk
pub mod Polling
