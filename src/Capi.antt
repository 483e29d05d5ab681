-- ===== src/Capi.antt =====
-- The C library of the opencores driver: opencores_driver/src/lib/pciDriver_Capi.c, over the driver's
-- ioctls and mmap. Each function first refuses null pointers with an error; the functions are modelled
-- from there on, with handles that exist.
pub mod Pagemask
pub mod Process
pub mod Buffers
pub mod Bars
pub mod Mappings
pub mod Config
mod Tests
