-- ===== src/Base.antt =====
-- The life of a device and of the module: opencores_driver/src/driver/base.c, with the setup of the
-- BARs and the interrupt in int.c.
pub mod Bars
pub mod Probe
pub mod Taken
pub mod Undo
pub mod History
pub mod Module
pub mod Mmap
mod Tests
