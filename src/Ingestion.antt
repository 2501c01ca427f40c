-- ===== src/Ingestion.antt =====
-- The ingestion worker of ingestion/worker.py: its loops over adapters, candidates and retries.
pub mod Types
pub mod Worker
pub mod Answers
pub mod Accounting
pub mod Backoff
