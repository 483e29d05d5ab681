-- ===== src/Capi/Tests.antt =====
-- The C library at a concrete device.
use fpga_pcie_drivers.Common.{
  ℕ, ◌+◌, ◌%◌, ◌≡◌, refl, true, false, some, none, List, [], ◌∷◌, ◌++◌, arith, get_last?, find_by,
  remove_by,
}
use mathlib.Core.List.{Perm}
use Prim.Native.Nat.{bit_and}
use fpga_pcie_drivers.Kernel.{ok, Event, act, acquired, released, remap_cpua_range, munmap}
use fpga_pcie_drivers.Device.{KmemHandle, KmemEntry, Bar, PciDev, Privdata, ulong, page_size}
use fpga_pcie_drivers.Base.Mmap.{map_call, mmap, mmap_bar}
use fpga_pcie_drivers.Kmem.{
  AllocAnswer, kmem_alloc, kmem_free, kmem_find_entry, kmem_free_entry, mmap_kmem_buffer,
  wrong_size,
}
use fpga_pcie_drivers.Kmem.Invariant.{IsFreshAnswer}
use fpga_pcie_drivers.Ioctl.Config.{PciBoardInfo, ioctl_pci_info, ioctl_mmap_mode, ioctl_mmap_area}
use fpga_pcie_drivers.Ioctl.Calls.{ioctl_kmem_alloc, ioctl_kmem_free}
use fpga_pcie_drivers.Capi.Pagemask.{pd_getpagemask, pagemask_loop, bit_and-pd_getpagemask}
use fpga_pcie_drivers.Capi.Process.{Process, VmAnswer, mmap_device}
use fpga_pcie_drivers.Capi.Buffers.{
  PdKmem, pd_alloc_kernel_memory, pd_free_kernel_memory, map_buffer,
}
use fpga_pcie_drivers.Capi.Buffers.Owned.{
  pd_free_kernel_memory-pd_alloc_kernel_memory, pd_alloc_kernel_memory-undone,
  pd_alloc_kernel_memory-mmap,
}
use fpga_pcie_drivers.Capi.Bars.{InfoAnswer, pd_map_bar, pd_unmap_bar, map_locked}
use fpga_pcie_drivers.Capi.Bars.Owned.{pd_unmap_bar-pd_map_bar}

bit_and-pd_getpagemask_example :
    (mask : ℕ) × (pd_getpagemask 4096 ≡ some mask) × (bit_and 0x12345 mask ≡ 0x345)
bit_and-pd_getpagemask_example =
    bit_and-pd_getpagemask 4096 12 0x12345 (omega arith) (omega arith) (omega arith)

-- a BAR that does not start at a page
abbrev registers : Bar
registers = record { start = 0xf0000800; len = 2048; io = false; prefetch = false }

abbrev board : PciDev
board = record {
  vendor = 0x10dc;
  device = 0x0153;
  bus = 1;
  devfn = 8;
  irq = 11;
  bars = registers ∷ [];
}

abbrev device : Privdata
device = record {
  devno = 0;
  pdev = board;
  mmap_mode = 0;
  mmap_area = 0;
  irq_enabled = false;
  irq_count = 0;
  irq_outstanding = [];
  bars_kmapped = [];
  kmem_list = [];
  kmem_count = 0;
  umem_list = [];
  umem_count = 0;
}

abbrev process : Process
process = record { device = device; locked = false }

abbrev alloc_answer : AllocAnswer
alloc_answer = record {
  entry = some 200;
  attr = record { name = some 201; created = true };
  buffer = some (0x2000, 0x9000);
}

abbrev fresh : IsFreshAnswer alloc_answer device
fresh = record { entry = λ p e. tt; buffer = λ c e. tt }

abbrev range : VmAnswer
range = record { start = some 0x7000; remapped = true }

abbrev no_range : VmAnswer
no_range = record { start = none; remapped = true }

abbrev old : KmemHandle
old = record { pa = 1; size = 2; handle_id = 3 }

abbrev empty : PdKmem
empty = record { pa = 0; size = 0; mem = 0; handle_id = 0 }

alloc_ok : (kmem_alloc alloc_answer device (record { pa = 1; size = 100; handle_id = 3 })).0 ≡ ok
unfolding kmem_alloc
alloc_ok = refl

pd_alloc_kernel_memory-mmap_example :
    (e : KmemEntry) × (h : PdKmem) × (q : Process) × (calls : List Event) × (pd_alloc_kernel_memory
        alloc_answer range old process 100 empty
      ≡ some (some 0x7000, h, q, calls ++ act (remap_cpua_range 0x7000 e.cpua e.size) ∷ []))
    × (get_last? q.device.kmem_list ≡ some e)
    × (h.pa ≡ e.dma_handle)
    × (h.handle_id ≡ e.id)
    × (e.size ≡ 100)
    × (q.locked ≡ false)
pd_alloc_kernel_memory-mmap_example =
    pd_alloc_kernel_memory-mmap alloc_answer range old process 100 empty 0x7000 alloc_ok refl refl
      refl

abbrev after_alloc : Process
after_alloc = record {
  device = record (kmem_alloc alloc_answer device (record old { size = 100 })).2 { mmap_mode = 1 };
  locked = false;
}

abbrev owned : PdKmem
owned = record { pa = 0x9000; size = 100; mem = 0x7000; handle_id = 0 }

abbrev alloc_calls : List Event
alloc_calls =
    (kmem_alloc alloc_answer device (record old { size = 100 })).3
    ++ act (remap_cpua_range 0x7000 0x2000 100) ∷ []

alloc_returns :
    pd_alloc_kernel_memory alloc_answer range old process 100 empty
    ≡ some (some 0x7000, owned, after_alloc, alloc_calls)
unfolding pd_alloc_kernel_memory map_buffer ioctl_kmem_alloc ioctl_mmap_mode kmem_alloc mmap_device
    mmap mmap_kmem_buffer wrong_size
alloc_returns = refl

pd_free_kernel_memory-pd_alloc_kernel_memory_example :
    ((pd_free_kernel_memory after_alloc owned).0 ≡ 0)
    × ((pd_free_kernel_memory after_alloc owned).1.device.kmem_list ≡ [])
    × ((pd_free_kernel_memory after_alloc owned).1.locked ≡ false)
    × Perm (released (pd_free_kernel_memory after_alloc owned).2) (acquired alloc_calls)
pd_free_kernel_memory-pd_alloc_kernel_memory_example =
    pd_free_kernel_memory-pd_alloc_kernel_memory alloc_answer range old process 100 empty 0x7000
      owned after_alloc alloc_calls fresh alloc_returns

abbrev after_failure : Process
after_failure = record { device = record device { mmap_mode = 1; kmem_count = 1 }; locked = false }

pd_alloc_kernel_memory-undone_example :
    (after_failure.device.kmem_list ≡ []) × (after_failure.locked ≡ false)
unfolding pd_alloc_kernel_memory map_buffer ioctl_kmem_alloc ioctl_kmem_free ioctl_mmap_mode
    kmem_alloc kmem_free kmem_find_entry kmem_free_entry find_by remove_by mmap_device
pd_alloc_kernel_memory-undone_example =
    pd_alloc_kernel_memory-undone alloc_answer no_range old process 100 empty _ after_failure _
      fresh refl

abbrev junk : PciBoardInfo
junk = record {
  vendor_id = 0;
  device_id = 0;
  bus = 0;
  slot = 0;
  devfn = 0;
  interrupt_pin = 0;
  interrupt_line = 0;
  irq = 0;
  bar_start = [];
  bar_length = [];
}

abbrev told : InfoAnswer
told = record { pin = (ok, 1); line = (ok, 11); junk = junk }

map_returns :
    pd_map_bar told range process 0
    ≡ some (some 0x7800, process, act (map_call 0x7000 registers) ∷ [])
unfolding pd_map_bar map_locked ioctl_pci_info ioctl_mmap_mode ioctl_mmap_area mmap_device mmap
    mmap_bar wrong_size pd_getpagemask pagemask_loop
map_returns = refl

pd_unmap_bar-pd_map_bar_example :
    (0x7800 ≡ ulong (0x7000 + 0xf0000800 % page_size))
    × (act (map_call 0x7000 registers) ∷ [] ≡ act (map_call 0x7000 registers) ∷ [])
    × (pd_unmap_bar told process 0 0x7800 ≡ some (0, act (munmap 0x7000 2048) ∷ []))
pd_unmap_bar-pd_map_bar_example =
    pd_unmap_bar-pd_map_bar told range process 0 (omega arith) (omega arith) told 0x7000 0x7800
      process _ refl refl refl (omega arith) map_returns
