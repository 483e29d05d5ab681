-- ===== src/Capi/Mappings/Tests.antt =====
-- Mappings of user memory by the C library at a concrete device.
use fpga_pcie_drivers.Common.{
  ℕ, ◌≤◌, ◌<◌, ◌≡◌, ◌⊎◌, inl, refl, true, false, some, List, [], ◌∷◌, arith, find_by,
}
use fpga_pcie_drivers.Kernel.{Event}
use fpga_pcie_drivers.Device.{UmemEntry, SgEntry, Page, PciDev, Privdata}
use fpga_pcie_drivers.Umem.Map.{umem_sgmap, sgmap_pages, sgmap_entry, umem_find_entry_id}
use fpga_pcie_drivers.Umem.Pages.{nr_pages_of}
use fpga_pcie_drivers.Umem.Pinned.{IsPinning}
use fpga_pcie_drivers.Umem.Lifecycle.{IsValid}
use fpga_pcie_drivers.Umem.Sglist.{umem_sgget}
use fpga_pcie_drivers.Ioctl.Calls.{ioctl_umem_sgmap, ioctl_umem_sgget, sgget_array}
use fpga_pcie_drivers.Capi.Process.{Process, minus_one}
use fpga_pcie_drivers.Capi.Mappings.{
  PdUmem, PdMapAnswer, pd_map_user_memory, pd_unmap_user_memory, get_list,
}
use fpga_pcie_drivers.Capi.Mappings.Owned.{
  pd_unmap_user_memory-pd_map_user_memory, pd_map_user_memory-nents,
}

abbrev board : PciDev
board = record { vendor = 0x10dc; device = 0x0153; bus = 1; devfn = 8; irq = 11; bars = [] }

abbrev device : Privdata
device = record {
  devno = 0;
  pdev = board;
  mmap_mode = 0;
  mmap_area = 0;
  irq_enabled = false;
  irq_count = 0;
  irq_outstanding = [];
  bars_kmapped = [];
  kmem_list = [];
  kmem_count = 0;
  umem_list = [];
  umem_count = 0;
}

abbrev process : Process
process = record { device = device; locked = false }

abbrev page : ℕ → Page
page n = record { frame = n; reserved = false; locked = false }

abbrev piece : ℕ → ℕ → SgEntry
piece addr size = record { addr = addr; size = size }

-- 100 bytes over the end of a page; the bus sees the two pages as one piece
abbrev mapped : PdMapAnswer
mapped = record {
  map = record {
    pages_area = some 500;
    sg_area = some 501;
    res = 2;
    pinned = page 30 ∷ page 31 ∷ [];
    mapped = piece 0x30fc0 100 ∷ [];
    entry = some 502;
    attr = record { name = some 503; created = true };
  };
  area = record { area = some 600; copied_in = true; copied_out = true };
  heap = 0x700000;
  array = piece 0 0 ∷ [];
  junk = record { vma = 0; size = 0; handle_id = 0; dir = 0 };
}

-- or as two pieces, which are more than the array has room for
abbrev split : PdMapAnswer
split = record mapped {
  map = record mapped.map { mapped = piece 0x30fc0 64 ∷ piece 0x50000 36 ∷ [] };
}

abbrev blank : PdUmem
blank = record { vma = 0; size = 0; handle_id = 0; nents = 0; heap = 0; sg = [] }

abbrev out : ℕ × PdUmem × Process × List Event
out = pd_map_user_memory mapped process 0x5fc0 100 blank

pins : IsPinning mapped.map (record { vma = 0x5fc0; size = 100; handle_id = 0; dir = 0 })
pins = record { counted = inl refl; at_most = unfold nr_pages_of in omega arith }

valid : IsValid device
valid = record { blocks = tt; ids = tt; below = tt }

pd_unmap_user_memory-pd_map_user_memory_example :
    ((out.0 ≡ minus_one) × (out.2.device.umem_list ≡ []))
    ⊎ ((out.0 ≡ 0)
        × ((pd_unmap_user_memory out.2 0 out.1).0 ≡ 0)
        × ((pd_unmap_user_memory out.2 0 out.1).1.device.umem_list ≡ []))
pd_unmap_user_memory-pd_map_user_memory_example =
    pd_unmap_user_memory-pd_map_user_memory mapped process 0x5fc0 100 blank out.0 out.1 out.2 out.3
      pins (λ a e. tt) valid refl

out_ok : out.0 ≡ 0
unfolding pd_map_user_memory get_list ioctl_umem_sgmap ioctl_umem_sgget sgget_array umem_sgget
    umem_sgmap sgmap_pages sgmap_entry nr_pages_of umem_find_entry_id find_by
out_ok = refl

abbrev used : Privdata
used = (umem_sgmap split.map device (record { vma = 0x5fc0; size = 100; handle_id = 0; dir = 0 })).2

abbrev entry : UmemEntry
entry = record {
  addr = 502;
  id = 0;
  nr_pages = 2;
  pages_ptr = 500;
  pages = record (page 30) { locked = true } ∷ record (page 31) { locked = true } ∷ [];
  nents = 2;
  sg_ptr = 501;
  sg = split.map.mapped;
  name = 503;
}

split_found : umem_find_entry_id used 0 ≡ some entry
unfolding umem_find_entry_id find_by umem_sgmap sgmap_pages sgmap_entry nr_pages_of
split_found = refl

pd_map_user_memory-nents_example :
    ((2 ≤ 1) × ((pd_map_user_memory split process 0x5fc0 100 blank).0 ≡ 0))
    ⊎ ((1 < 2) × ((pd_map_user_memory split process 0x5fc0 100 blank).0 ≡ minus_one))
unfolding umem_sgmap sgmap_pages sgmap_entry nr_pages_of
pd_map_user_memory-nents_example =
    pd_map_user_memory-nents split process 0x5fc0 100 blank entry 600 refl split_found refl
