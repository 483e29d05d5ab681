-- ===== src/Creotech.antt =====
-- The second driver, for the multichannel GEM detector: creotech_driver/pcie.c.
pub mod Card
pub mod Probe
pub mod Undo
pub mod Stream
pub mod Transfers
pub mod Halves
pub mod File
mod Tests
