-- ===== src/Spool.antt =====
-- The durable capture spool of proxy/spool.py: its records, the writer of one job, the reader that
-- checks a timeline, the session that submits events, and the queue between the two.
pub mod Types
pub mod Writer
pub mod Timeline
pub mod Publish
pub mod Recovery
pub mod Session
pub mod Worker
