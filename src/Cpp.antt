-- ===== src/Cpp.antt =====
-- The C++ classes over the opencores driver: PciDevice.cpp, KernelMemory.cpp and UserMemory.cpp of
-- opencores_driver/src/lib.
pub mod Device
pub mod Bars
pub mod Config
pub mod Buffer
pub mod Mapping
mod Tests
