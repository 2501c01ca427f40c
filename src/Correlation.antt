-- ===== src/Correlation.antt =====
-- The correlation engine of correlation/engine.py: the values, the lines of documents, the conflicts
-- between documents, the scores of pairs, the groups, and the transactions.
pub mod Types
pub mod Lines
pub mod OrderChange
pub mod Conflicts
pub mod Score
pub mod Links
pub mod Pairs
mod Reach
pub mod ScoreLaws
pub mod Forest
pub mod Groups
pub mod Evidence
pub mod Closing
pub mod Transaction
