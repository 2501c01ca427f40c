-- ===== src/Parser.antt =====
-- The parsers of captured streams.
pub mod Framing
