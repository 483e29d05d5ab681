-- ===== src/Device.antt =====
-- The data of the opencores driver: the structures of include/driver/pciDriver.h, which user
-- space passes in, and those of src/driver/common.h, which the driver keeps for each device.
use fpga_pcie_drivers.Common.{ℕ, ◌%◌, ◌^◌, Bool, List, Option}

-- PAGE_SHIFT and PAGE_SIZE of the machine, and the range of its words.
abbrev pub page_size : ℕ
page_size = 4096

abbrev pub ulong : ℕ → ℕ
ulong n = n % 2 ^ 64

abbrev pub uint : ℕ → ℕ
uint n = n % 2 ^ 32

-- PCIDRIVER_MMAP_PCI, PCIDRIVER_MMAP_KMEM
abbrev pub mmap_pci : ℕ
mmap_pci = 0

abbrev pub mmap_kmem : ℕ
mmap_kmem = 1

-- PCIDRIVER_BAR5; BAR0 is 0.
abbrev pub bar5 : ℕ
bar5 = 5

-- PCIDRIVER_DMA_BIDIRECTIONAL, PCIDRIVER_DMA_TODEVICE, PCIDRIVER_DMA_FROMDEVICE
abbrev pub dma_bidirectional : ℕ
dma_bidirectional = 0

abbrev pub dma_todevice : ℕ
dma_todevice = 1

abbrev pub dma_fromdevice : ℕ
dma_fromdevice = 2

-- PCIDRIVER_SG_MERGED
abbrev pub sg_merged : ℕ
sg_merged = 1

-- PCIDRIVER_INT_MAXSOURCES
abbrev pub int_maxsources : ℕ
int_maxsources = 16

-- `kmem_handle_t`
pub record KmemHandle : Type 0 where
  pub pa : ℕ
  pub size : ℕ
  pub handle_id : ℕ

-- `kmem_sync_t`
pub record KmemSync : Type 0 where
  pub handle : KmemHandle
  pub dir : ℕ

-- `umem_sgentry_t`
pub record SgEntry : Type 0 where
  pub addr : ℕ
  pub size : ℕ

-- `umem_handle_t`
pub record UmemHandle : Type 0 where
  pub vma : ℕ
  pub size : ℕ
  pub handle_id : ℕ
  pub dir : ℕ

-- `umem_sglist_t`; `sg` is the array that the pointer of that name points to.
pub record UmemSglist : Type 0 where
  pub handle_id : ℕ
  pub type : ℕ
  pub nents : ℕ
  pub sg : List SgEntry

-- A BAR of the device, with the two resource flags that the driver tests.
pub record Bar : Type 0 where
  pub start : ℕ
  pub len : ℕ
  pub io : Bool
  pub prefetch : Bool

-- The part of `struct pci_dev` that the driver reads.
pub record PciDev : Type 0 where
  pub vendor : ℕ
  pub device : ℕ
  pub bus : ℕ
  pub devfn : ℕ
  pub irq : ℕ
  pub bars : List Bar

-- `pcidriver_kmem_entry_t`; `addr` is the address of the structure, by which `list_del` cuts it,
-- and `name` that of the attribute's name.
pub record KmemEntry : Type 0 where
  pub addr : ℕ
  pub id : ℕ
  pub dma_handle : ℕ
  pub cpua : ℕ
  pub size : ℕ
  pub name : ℕ

-- A page of user memory: its frame, and the flags PG_reserved and PG_locked.
pub record Page : Type 0 where
  pub frame : ℕ
  pub reserved : Bool
  pub locked : Bool

-- `pcidriver_umem_entry_t`. `pages_ptr` and `sg_ptr` are the vmalloc areas, `pages` and `sg` what
-- is in them: of the scatterlist, the bus address and length of each mapped entry.
pub record UmemEntry : Type 0 where
  pub addr : ℕ
  pub id : ℕ
  pub nr_pages : ℕ
  pub pages_ptr : ℕ
  pub pages : List Page
  pub nents : ℕ
  pub sg_ptr : ℕ
  pub sg : List SgEntry
  pub name : ℕ

-- `pcidriver_privdata_t`. The atomic counters are 32-bit patterns; `bars_kmapped` holds `none` for
-- a null pointer.
pub record Privdata : Type 0 where
  pub devno : ℕ
  pub pdev : PciDev
  pub mmap_mode : ℕ
  pub mmap_area : ℕ
  pub irq_enabled : Bool
  pub irq_count : ℕ
  pub irq_outstanding : List ℕ
  pub bars_kmapped : List (Option ℕ)
  pub kmem_list : List KmemEntry
  pub kmem_count : ℕ
  pub umem_list : List UmemEntry
  pub umem_count : ℕ
