-- ===== src/Cpp/Tests.antt =====
-- The classes at a concrete device.
use fpga_pcie_drivers.Common.{ℕ, ◌≤◌, ◌≡◌, refl, true, false, some, [], ◌∷◌, arith, find_by}
use fpga_pcie_drivers.Device.{UmemEntry, SgEntry, Page, PciDev, Privdata}
use fpga_pcie_drivers.Umem.Map.{umem_sgmap, sgmap_pages, sgmap_entry, umem_find_entry_id}
use fpga_pcie_drivers.Umem.Pages.{nr_pages_of}
use fpga_pcie_drivers.Umem.Bytes.{bytes}
use fpga_pcie_drivers.Umem.Get.{IsGettable}
use fpga_pcie_drivers.Cpp.Device.{PciDevice, returns}
use fpga_pcie_drivers.Cpp.Mapping.{
  UserMemory, UserAnswer, requested, new_user_memory, new_user_memory-bytes,
}

abbrev board : PciDev
board = record { vendor = 0x10dc; device = 0x0153; bus = 1; devfn = 8; irq = 11; bars = [] }

abbrev device : Privdata
device = record {
  devno = 0;
  pdev = board;
  mmap_mode = 0;
  mmap_area = 0;
  irq_enabled = false;
  irq_count = 0;
  irq_outstanding = [];
  bars_kmapped = [];
  kmem_list = [];
  kmem_count = 0;
  umem_list = [];
  umem_count = 0;
}

abbrev opened : PciDevice
opened = record {
  process = record { device = device; locked = false };
  is_open = true;
  pagemask = 4095;
  pageshift = 12;
}

abbrev page : ℕ → Page
page n = record { frame = n; reserved = false; locked = false }

abbrev piece : ℕ → ℕ → SgEntry
piece addr size = record { addr = addr; size = size }

-- 100 bytes over the end of a page, which the bus sees as two pieces
abbrev split : UserAnswer
split = record {
  map = record {
    pages_area = some 500;
    sg_area = some 501;
    res = 2;
    pinned = page 30 ∷ page 31 ∷ [];
    mapped = piece 0x30fc0 64 ∷ piece 0x50000 36 ∷ [];
    entry = some 502;
    attr = record { name = some 503; created = true };
  };
  area = record { area = some 600; copied_in = true; copied_out = true };
  temporary = 0x700000;
  entries = 0x710000;
  array = piece 0 0 ∷ piece 0 0 ∷ [];
  junk = record { vma = 0; size = 0; handle_id = 0; dir = 0 };
}

abbrev used : Privdata
used = (umem_sgmap split.map device (record { vma = 0x5fc0; size = 100; handle_id = 0; dir = 0 })).2

abbrev entry : UmemEntry
entry = record {
  addr = 502;
  id = 0;
  nr_pages = 2;
  pages_ptr = 500;
  pages = record (page 30) { locked = true } ∷ record (page 31) { locked = true } ∷ [];
  nents = 2;
  sg_ptr = 501;
  sg = split.map.mapped;
  name = 503;
}

split_found : umem_find_entry_id used 0 ≡ some entry
unfolding umem_find_entry_id find_by umem_sgmap sgmap_pages sgmap_entry nr_pages_of
split_found = refl

split-IsGettable : IsGettable (requested split 0 100 true) entry
split-IsGettable = record {
  array = refl;
  entries = refl;
  some_entry = omega arith;
  bus = (omega arith, (omega arith, tt));
  small = omega arith;
}

new_user_memory-bytes_example :
    (m : UserMemory) × ((new_user_memory split opened 0x5fc0 100 true).0 ≡ returns m)
    × (bytes m.sg ≡ bytes entry.sg)
    × (m.nents ≤ 2)
unfolding umem_sgmap sgmap_pages sgmap_entry nr_pages_of
new_user_memory-bytes_example =
    new_user_memory-bytes split opened 0x5fc0 100 true entry 600 refl refl split_found (omega arith)
      refl split-IsGettable
