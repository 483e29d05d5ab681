-- ===== src/Ioctl.antt =====
-- The ioctl interface: opencores_driver/src/driver/ioctl.c.
pub mod Config
pub mod Calls
pub mod Dispatch
pub mod Invariant
pub mod Safety
pub mod Faults
mod Tests
