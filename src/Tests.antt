-- ===== src/Tests.antt =====
-- Runs of the modelled code on small inputs, and the theorems at inputs that meet their hypotheses.
mod Samples
mod Capture
mod Network
mod Prices
mod Import
mod Sales
mod Frames
mod Logins
