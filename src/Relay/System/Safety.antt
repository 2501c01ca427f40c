-- ===== src/Relay/System/Safety.antt =====
-- A published capture that is marked COMPLETE has every byte: the invariant of the queue, the
-- writer and the answers, and that it holds from the start.
pub mod Queue
pub mod Answers
pub mod Steps
pub mod Handling
pub mod Invariant
pub mod Closing
