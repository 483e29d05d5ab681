-- ===== src/Mprace.antt =====
-- fpga_framework/mprace: the DMA engine with its buffers, the driver, and the ABB board.
pub mod Descriptor
pub mod Control
pub mod Send
pub mod Restore
pub mod Pieces
pub mod Loops
pub mod Chain
pub mod Ready
pub mod Whole
pub mod Fill
pub mod Linked
pub mod Found
pub mod Prepared
pub mod Filled
pub mod Machine
pub mod Engine
pub mod Waiting
pub mod Started
pub mod Transfers
pub mod Driver
pub mod Retry
pub mod Abb
pub mod Blocks
pub mod Patient
mod Tests
