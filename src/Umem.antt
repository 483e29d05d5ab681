-- ===== src/Umem.antt =====
-- User memory: opencores_driver/src/driver/umem.c. Pinned user pages, mapped to the bus as a
-- scatter/gather list, one entry for each mapping.
pub mod Pages
pub mod Coverage
pub mod Map
pub mod Pinned
pub mod Balance
pub mod Lifecycle
pub mod Roundtrip
pub mod Sglist
pub mod Merge
pub mod Bytes
pub mod Get
pub mod Sync
mod Tests
