-- ===== src/Pricing.antt =====
-- x
pub mod Types
pub mod Match
pub mod Attribution
pub mod Grade
pub mod Sets
pub mod Agreement
pub mod Persist
pub mod Fingerprints
pub mod Idempotent
