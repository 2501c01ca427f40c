-- ===== src/Relay.antt =====
-- The data plane of proxy/relay.py: the counters of a session, the pump of one direction, and what
-- a session brings to the spool.
pub mod Counters
pub mod Pump
pub mod Transparent
pub mod Duplex
pub mod Admission
pub mod System
