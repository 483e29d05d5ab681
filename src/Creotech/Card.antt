-- ===== src/Creotech/Card.antt =====
-- The driver's state, pcie.h, and what it writes to the card: `fpga_init_device` and `run_dma` of
-- pcie.c.
use fpga_pcie_drivers.Common.{ℕ, ◌+◌, Bool, Option, List, [], ◌∷◌, if◌then◌else◌}
use fpga_pcie_drivers.Kernel.{Event, acquire, act, write_reg, map_single, dma_mapping}
use fpga_pcie_drivers.Device.{ulong, uint}

-- BUF_SIZE
abbrev pub buf_size : ℕ
buf_size = 16384

-- the registers, by their offset: REG_DCSR to REG_RDMATLPC
abbrev pub reg_dcsr : ℕ
reg_dcsr = 0x000

abbrev pub reg_ddmacr : ℕ
reg_ddmacr = 0x004

abbrev pub reg_wdmatlpa : ℕ
reg_wdmatlpa = 0x008

abbrev pub reg_wdmatlps : ℕ
reg_wdmatlps = 0x00c

abbrev pub reg_wdmatlpc : ℕ
reg_wdmatlpc = 0x010

abbrev pub reg_wdmatlpp : ℕ
reg_wdmatlpp = 0x014

abbrev pub reg_rdmatlpp : ℕ
reg_rdmatlpp = 0x018

abbrev pub reg_rdmatlpa : ℕ
reg_rdmatlpa = 0x01c

abbrev pub reg_rdmatlps : ℕ
reg_rdmatlps = 0x020

abbrev pub reg_rdmatlpc : ℕ
reg_rdmatlpc = 0x024

-- BIT_INIT, BIT_INITRESET, BIT_WDMASTART, BIT_RDMASTART
abbrev pub bit_init : ℕ
bit_init = 0

abbrev pub bit_initreset : ℕ
bit_initreset = 1

abbrev pub bit_wdmastart : ℕ
bit_wdmastart = 1

abbrev pub bit_rdmastart : ℕ
bit_rdmastart = 0x10000

-- BIT_WDMASTART|BIT_WDMAINTDONE
abbrev pub wdmastart_intdone : ℕ
wdmastart_intdone = 0x81

-- `struct pcie_descriptor_structure`: of `int`s and the pattern, the 32-bit patterns. `region` is
-- none for a null pointer.
pub record Card : Type 0 where
  pub base_start : ℕ
  pub base_len : ℕ
  pub region : Option ℕ
  pub irq : ℕ
  pub buffer : ℕ
  pub even_buffer : Bool
  pub buffer_hw_addr : ℕ
  pub offset : ℕ
  pub dma_addr : ℕ
  pub dma_done : Bool
  pub tlp_size : ℕ
  pub tlp_count : ℕ
  pub dma_count : ℕ
  pub wake : Bool
  pub pattern : ℕ

-- `write_reg`: the value is cut to 32 bits.
abbrev pub write : ℕ → ℕ → Event
write register value = act (write_reg register (uint value))

-- `!even_buffer ? BUF_SIZE : 0`
abbrev pub half : Bool → ℕ
half even = if even then 0 else buf_size

-- `fpga_init_device`
unfoldable pub fpga_init_device : Card → List Event
fpga_init_device c =
    write reg_dcsr bit_initreset
    ∷ write reg_dcsr bit_init
    ∷ write reg_ddmacr 0
    ∷ write reg_wdmatlpa c.buffer_hw_addr
    ∷ write reg_wdmatlps 0x32
    ∷ write reg_wdmatlpc 0x128
    ∷ write reg_wdmatlpp 0x1e2e3e4e
    ∷ write reg_rdmatlpp 0xfeedbeef
    ∷ write reg_rdmatlpa c.buffer_hw_addr
    ∷ write reg_rdmatlps 0x20
    ∷ write reg_rdmatlpc 0x2000
    ∷ []

-- `run_dma`; `mapped` is the address that pci_map_single returns.
unfoldable pub run_dma : Bool → ℕ → ℕ → Card → Card × List Event
run_dma send_interrupt offset mapped c =
    let half_start = half c.even_buffer in
    (
      record c { dma_addr = mapped; offset = offset },
      act (map_single (ulong (c.buffer + half_start + c.offset)) buf_size)
          ∷ acquire (dma_mapping mapped buf_size)
          ∷ write reg_dcsr bit_initreset
          ∷ write reg_dcsr bit_init
          ∷ write reg_wdmatlpc c.tlp_count
          ∷ write reg_wdmatlps c.tlp_size
          ∷ write reg_wdmatlpp c.pattern
          ∷ write reg_wdmatlpa (ulong (c.buffer_hw_addr + half_start + offset))
          ∷ write reg_ddmacr (if send_interrupt then bit_wdmastart else wdmastart_intdone)
          ∷ [],
    )
