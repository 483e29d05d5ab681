-- ===== src/Ioctl/Config.antt =====
-- The ioctls that set up mmap and read the device's configuration.
use fpga_pcie_drivers.Common.{
  ℕ, ◌+◌, ◌*◌, ◌/◌, ◌%◌, ◌^◌, Bool, Option, none, some, List, [], ◌∷◌, leb, ◌==◌, ◌||◌,
  if◌then◌else◌, get_or,
}
use fpga_pcie_drivers.Kernel.{
  Status, ok, err, einval, efault, Event, act, read_config, write_config,
}
use fpga_pcie_drivers.Device.{
  Bar, KmemHandle, UmemHandle, UmemSglist, SgEntry, Privdata, bar5, mmap_pci, mmap_kmem,
}
use fpga_pcie_drivers.Base.Mmap.{no_bar}

-- PCIDRIVER_PCI_CFG_SZ_BYTE, PCIDRIVER_PCI_CFG_SZ_WORD, PCIDRIVER_PCI_CFG_SZ_DWORD
abbrev pub cfg_sz_byte : ℕ
cfg_sz_byte = 1

abbrev pub cfg_sz_word : ℕ
cfg_sz_word = 2

abbrev pub cfg_sz_dword : ℕ
cfg_sz_dword = 3

-- `pci_cfg_cmd`; `val` is the union, as its 32 bits.
pub record PciCfgCmd : Type 0 where
  pub size : ℕ
  pub addr : ℕ
  pub val : ℕ

-- `pci_board_info`
pub record PciBoardInfo : Type 0 where
  pub vendor_id : ℕ
  pub device_id : ℕ
  pub bus : ℕ
  pub slot : ℕ
  pub devfn : ℕ
  pub interrupt_pin : ℕ
  pub interrupt_line : ℕ
  pub irq : ℕ
  pub bar_start : List ℕ
  pub bar_length : List ℕ

-- Whether copy_from_user and copy_to_user succeed.
pub record User : Type 0 where
  pub readable : Bool
  pub writable : Bool

-- What is copied to user space, if anything.
pub data Reply : Type 0 where
  silent : Reply
  cfg : PciCfgCmd → Reply
  info : PciBoardInfo → Reply
  kmem_handle : KmemHandle → Reply
  umem_handle : UmemHandle → Reply
  sglist : UmemSglist → Reply
  array : List SgEntry → Reply

-- the value an ioctl returns, what it writes to the user, the device, and the calls
abbrev pub Answer : Type 0
Answer = Status × Reply × Privdata × List Event

-- `WRITE_TO_USER` and `return 0`
abbrev pub write_to_user : User → Reply → Privdata → List Event → Answer
write_to_user u r d calls = if u.writable then (ok, r, d, calls) else (err efault, silent, d, calls)

-- `READ_FROM_USER` before the rest of an ioctl
abbrev pub read_from_user : User → Privdata → Answer → Answer
read_from_user u d rest = if u.readable then rest else (err efault, silent, d, [])

-- `ioctl_mmap_mode`
unfoldable pub ioctl_mmap_mode : Privdata → ℕ → Answer
ioctl_mmap_mode d arg =
    if arg == mmap_pci || arg == mmap_kmem
    then (ok, silent, record d { mmap_mode = arg }, [])
    else (err einval, silent, d, [])

-- `ioctl_mmap_area`
unfoldable pub ioctl_mmap_area : Privdata → ℕ → Answer
ioctl_mmap_area d arg =
    if leb arg bar5
    then (ok, silent, record d { mmap_area = arg }, [])
    else (err einval, silent, d, [])

-- the width in bytes for a size setting
abbrev pub width : ℕ → Option ℕ
width size =
    if size == cfg_sz_byte
    then some 1
    else if size == cfg_sz_word
    then some 2
    else if size == cfg_sz_dword
    then some 4
    else none

-- a little-endian union whose first `n` bytes are set to those of `v`
abbrev pub put_low : ℕ → ℕ → ℕ → ℕ
put_low n v old = old / 2 ^ (8 * n) * 2 ^ (8 * n) + v % 2 ^ (8 * n)

-- `ioctl_pci_config_read_write`; `v` is what a read leaves in the variable. Neither a read's nor a
-- write's own result is looked at.
unfoldable pub ioctl_pci_config_read_write : User → ℕ → Bool → Privdata → PciCfgCmd → Answer
ioctl_pci_config_read_write u v reads d c = read_from_user u d (elim (width c.size) [
  | none ↦ (err einval, silent, d, [])
  | some n ↦
      if reads
      then write_to_user u (cfg (record c { val = put_low n v c.val })) d
          (act (read_config n c.addr) ∷ [])
      else write_to_user u (cfg c) d (act (write_config n c.addr (c.val % 2 ^ (8 * n))) ∷ [])
])

-- the loop over the six BARs
abbrev pub bar_starts : List Bar → List ℕ
bar_starts bs =
    (get_or bs 0 no_bar).start
    ∷ (get_or bs 1 no_bar).start
    ∷ (get_or bs 2 no_bar).start
    ∷ (get_or bs 3 no_bar).start
    ∷ (get_or bs 4 no_bar).start
    ∷ (get_or bs 5 no_bar).start
    ∷ []

abbrev pub bar_lengths : List Bar → List ℕ
bar_lengths bs =
    (get_or bs 0 no_bar).len
    ∷ (get_or bs 1 no_bar).len
    ∷ (get_or bs 2 no_bar).len
    ∷ (get_or bs 3 no_bar).len
    ∷ (get_or bs 4 no_bar).len
    ∷ (get_or bs 5 no_bar).len
    ∷ []

-- `ioctl_pci_info`; `pin` and `line` are the two configuration bytes, or the error.
unfoldable pub ioctl_pci_info : User → Status × ℕ → Status × ℕ → Privdata → PciBoardInfo → Answer
ioctl_pci_info u pin line d i = read_from_user u d (elim pin.0 [
  | err e ↦ (err e, silent, d, [])
  | ok ↦ elim line.0 [
    | err e ↦ (err e, silent, d, [])
    | ok ↦
        write_to_user u
          (info (record {
            vendor_id = d.pdev.vendor;
            device_id = d.pdev.device;
            bus = d.pdev.bus;
            slot = d.pdev.devfn / 8 % 32;
            devfn = d.pdev.devfn;
            interrupt_pin = pin.1;
            interrupt_line = line.1;
            irq = i.irq;
            bar_start = bar_starts d.pdev.bars;
            bar_length = bar_lengths d.pdev.bars;
          }))
          d []
  ]
])
