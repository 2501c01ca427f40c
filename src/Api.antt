-- ===== src/Api.antt =====
-- The control plane's API.
pub mod Throttle
