-- ===== src/Mprace/Tests.antt =====
-- The DMA engine at a concrete buffer.
use fpga_pcie_drivers.Common.{
  find_by, ℕ, zero, suc, ◌+◌, ◌/◌, ◌%◌, ◌^◌, ◌<◌, ◌≡◌, ◌⊎◌, refl, true, false, some, none, List, [],
  ◌∷◌, arith, take, drop, All, ◌==◌, if◌then◌else◌,
}
use fpga_pcie_drivers.Device.{SgEntry, UmemEntry, Privdata}
use fpga_pcie_drivers.Umem.Bytes.{bytes}
use fpga_pcie_drivers.Cpp.Device.{PciDevice}
use fpga_pcie_drivers.Cpp.Mapping.{UserMemory, sync_user_memory}
use fpga_pcie_drivers.Ioctl.Calls.{ioctl_umem_sync}
use fpga_pcie_drivers.Umem.Map.{umem_sync}
use fpga_pcie_drivers.Mprace.Descriptor.{Descriptor}
use fpga_pcie_drivers.Mprace.Send.{DescriptorList, Channel, prepare, restore_saved_data}
use fpga_pcie_drivers.Mprace.Restore.{IsWords, IsLinked}
use fpga_pcie_drivers.Mprace.Pieces.{pieces}
use fpga_pcie_drivers.Mprace.Chain.{Chain}
use fpga_pcie_drivers.Mprace.Found.{IsBuffer}
use fpga_pcie_drivers.Mprace.Prepared.{bytes-prepare, restore-prepare}
use fpga_pcie_drivers.Mprace.Fill.{new_list, fill_descriptor_list}
use fpga_pcie_drivers.Mprace.Linked.{pa-new_list}
use fpga_pcie_drivers.Mprace.Filled.{fill_descriptor_list-IsBuffer}
use fpga_pcie_drivers.Mprace.Machine.{
  DmaBuffer, user, Engine, Machine, Result, ok, err, dma_timeout,
}
use fpga_pcie_drivers.Mprace.Engine.{WaitAnswer, host2board}
use fpga_pcie_drivers.Mprace.Waiting.{IsBusy, IsDone, IsLate, counted}
use fpga_pcie_drivers.Mprace.Transfers.{host2board-lists}
use fpga_pcie_drivers.Mprace.Driver.{Driver, TryAnswer, alloc_kernel_memory}
use fpga_pcie_drivers.Mprace.Retry.{Tried, alloc_kernel_memory-Tried}
use fpga_pcie_drivers.Mprace.Abb.{Abb, write_block, write_dma}
use fpga_pcie_drivers.Mprace.Patient.{IsRunning, write_dma-patient}
use fpga_pcie_drivers.Mprace.Blocks.{writes, IsPast, write_block-writes, write_block-IsPast}

-- 100 bytes over the end of a page
abbrev front : Descriptor
front = record {
  per_addr_h = 0;
  per_addr_l = 0;
  host_addr_h = 0;
  host_addr_l = 0x30fc0;
  next_bda_h = 0;
  next_bda_l = 0x1040;
  length = 64;
  control = 0;
  pa = 0x1000;
}

abbrev behind : Descriptor
behind = record {
  per_addr_h = 0;
  per_addr_l = 0;
  host_addr_h = 0;
  host_addr_l = 0x50000;
  next_bda_h = 0;
  next_bda_l = 0;
  length = 36;
  control = 0;
  pa = 0x1040;
}

abbrev split : DescriptorList
split = record { size = 2; at = λ j. if j == 0 then front else behind }

each : (P : ℕ → Type 0) → P 0 → P 1 → (j : ℕ) → j < 2 → P j
each P p q zero here = p
each P p q (suc zero) here = q
each P p q (suc (suc j)) here = absurd (omega arith)

front-IsWords : IsWords front
front-IsWords = record {
  host_h = omega arith;
  host_l = omega arith;
  length = omega arith;
  address = omega arith;
}

behind-IsWords : IsWords behind
behind-IsWords = record {
  host_h = omega arith;
  host_l = omega arith;
  length = omega arith;
  address = omega arith;
}

split-IsLinked : IsLinked split
split-IsLinked = record {
  some_entry = omega arith;
  small = omega arith;
  words = each (λ j. IsWords (split.at j)) front-IsWords behind-IsWords;
  idle = each (λ j. (split.at j).control ≡ 0) refl refl;
  next_h = λ j here.
      each (λ j. j + 1 < 2 → (split.at j).next_bda_h ≡ (split.at (j + 1)).pa / 2 ^ 32) (λ h. refl)
        (λ h. absurd (omega arith)) j (omega arith) here;
  next_l = λ j here.
      each (λ j. j + 1 < 2 → (split.at j).next_bda_l ≡ (split.at (j + 1)).pa % 2 ^ 32) (λ h. refl)
        (λ h. absurd (omega arith)) j (omega arith) here;
  end_h = refl;
  end_l = refl;
}

split-IsBuffer : IsBuffer 100 split
split-IsBuffer = record {
  linked = split-IsLinked;
  filled = each (λ j. 0 < (split.at j).length) (omega arith) (omega arith);
  covers = refl;
  small = omega arith;
}

abbrev unused : Channel
unused = record {
  saved = false;
  saved_data = record { buf = 0; init_descriptor = 0; last_descriptor = 0; offset = 0; length = 0 };
}

bytes-prepare_example :
    (es : List SgEntry) × Chain
      (prepare 7 100 2 0x40 15 4 true split unused).list
      (prepare 7 100 2 0x40 15 4 true split unused).first
      es
    × (bytes es ≡ take 60 (drop 16 (bytes (pieces 2 split 0))))
bytes-prepare_example =
    bytes-prepare 100 split 7 2 0x40 15 4 true unused split-IsBuffer (omega arith) (omega arith)

restore-prepare_example :
    ((prepare 7 100 2 0x40 15 4 true split unused).channel.saved ≡ true)
    × ((prepare 7 100 2 0x40 15 4 true split unused).channel.saved_data.buf ≡ 7)
    × ((restore_saved_data
            (prepare 7 100 2 0x40 15 4 true split unused).channel.saved_data
            (prepare 7 100 2 0x40 15 4 true split unused).list).at
          1
        ≡ behind)
restore-prepare_example =
    restore-prepare 100 split 7 2 0x40 15 4 true unused 1 split-IsBuffer (omega arith) (omega arith)
      (omega arith)

abbrev entry : ℕ → UmemEntry
entry n = record {
  addr = 500 + n;
  id = n;
  nr_pages = 1;
  pages_ptr = 510 + n;
  pages = [];
  nents = 1;
  sg_ptr = 520 + n;
  sg = [];
  name = 530 + n;
}

abbrev device : Privdata
device = record {
  devno = 0;
  pdev = record { vendor = 0x10dc; device = 0x0153; bus = 1; devfn = 8; irq = 11; bars = [] };
  mmap_mode = 0;
  mmap_area = 0;
  irq_enabled = false;
  irq_count = 0;
  irq_outstanding = [];
  bars_kmapped = [];
  kmem_list = [];
  kmem_count = 0;
  umem_list = entry 0 ∷ entry 1 ∷ [];
  umem_count = 2;
}

abbrev opened : PciDevice
opened = record {
  process = record { device = device; locked = false };
  is_open = true;
  pagemask = 4095;
  pageshift = 12;
}

abbrev range : ℕ → UserMemory
range n = record { vma = 0x5000; size = 100; handle_id = n; nents = 2; heap = 0x710000; sg = [] }

abbrev buffer : DmaBuffer
buffer = record { id = 7; size = 100; memory = user (range 0); descriptors = range 1 }

abbrev engine : Engine
engine = record {
  lists = λ j. split;
  channel = λ ch. unused;
  use_interrupts = false;
  loop_limit = 10;
  inte = 3;
  transferred = λ ch. none;
}

abbrev machine : Machine
machine = record { engine = engine; dev = opened; trace = [] }

-- busy, then idle
abbrev answer : WaitAnswer
answer = record { rounds = (2, false) ∷ (0, false) ∷ []; status = 0; interrupts = []; late = false }

range_synced : (sync_user_memory opened (range 0) 0).0 ≡ none
unfolding sync_user_memory ioctl_umem_sync umem_sync find_by
range_synced = refl

list_synced : (sync_user_memory opened (range 1) 1).0 ≡ none
unfolding sync_user_memory ioctl_umem_sync umem_sync find_by
list_synced = refl

host2board-lists_example :
    ((host2board answer buffer 2 0x40 15 4 true true machine ≡ none) × All IsBusy answer.rounds)
    ⊎ ((r : Result (Unit {0})) × (n : Machine) × (host2board answer buffer 2 0x40 15 4 true true
            machine
          ≡ some (r, n))
        × (((r ≡ ok tt) × IsDone answer.rounds)
            ⊎ ((r ≡ err (dma_timeout (counted engine 0))) × IsLate answer.rounds))
        × ((n.engine.channel 0).saved ≡ false)
        × ((j : ℕ) → j < 2 → (n.engine.lists 7).at j ≡ split.at j))
host2board-lists_example =
    host2board-lists answer buffer (range 0) 2 0x40 15 4 true machine refl refl split-IsBuffer
      (omega arith) (omega arith) range_synced list_synced

-- the mapping of the 100 bytes, and that of the page for its descriptors
abbrev mapped : UserMemory
mapped = record (range 0) {
  sg = record { addr = 0x30fc0; size = 64 } ∷ record { addr = 0x50000; size = 36 } ∷ [];
}

abbrev list_page : UserMemory
list_page = record (range 1) { nents = 1; sg = record { addr = 0x1000; size = 4096 } ∷ [] }

abbrev nothing : SgEntry
nothing = record { addr = 0; size = 0 }

fill_descriptor_list-IsBuffer_example :
    (l : DescriptorList) × (fill_descriptor_list nothing (λ j. behind) list_page 100 1 (user mapped)
      ≡ some l)
    × IsBuffer 100 l
    × (pieces l.size l 0 ≡ mapped.sg)
fill_descriptor_list-IsBuffer_example =
    fill_descriptor_list-IsBuffer nothing (λ j. behind) mapped list_page 100 1 refl (omega arith)
      (omega arith) ((omega arith, omega arith), ((omega arith, omega arith), tt)) (omega arith)

-- the memory of a list of 100 descriptors
abbrev two_pages : UserMemory
two_pages = record (range 1) {
  nents = 2;
  sg = record { addr = 0x1000; size = 4096 } ∷ record { addr = 0x9000; size = 4096 } ∷ [];
}

pa-new_list_example :
    (new_list nothing (λ j. behind) 100 two_pages).at 70 ≡ record behind { pa = 0x9180 }
pa-new_list_example = pa-new_list nothing (λ j. behind) 100 two_pages 70 (omega arith)

abbrev board : Abb
board = record { regs_size = 64; mem_size = 8; fifo_size = 4 }

write_block-writes_example :
    (write_block board 4 (5 ∷ 6 ∷ 7 ∷ []) true ≡ writes board 4 (5 ∷ 6 ∷ 7 ∷ []))
    × ((write_block board 4 (5 ∷ 6 ∷ 7 ∷ []) true).0 ≡ none)
write_block-writes_example = write_block-writes board 4 (5 ∷ 6 ∷ 7 ∷ []) (omega arith) (omega arith)

write_block-IsPast_example :
    ((writes board 6 (5 ∷ 6 ∷ [])).0 ≡ none)
    × ((write_block board 6 (5 ∷ 6 ∷ []) true).0 ≡ none)
    × All (IsPast board) (write_block board 6 (5 ∷ 6 ∷ []) true).1
write_block-IsPast_example =
    write_block-IsPast board 6 (5 ∷ 6 ∷ []) (omega arith) (omega arith) (omega arith) refl
      (omega arith)

abbrev full : TryAnswer
full = record {
  alloc = record { entry = none; attr = record { name = none; created = false }; buffer = none };
  map = record { start = none; remapped = false };
  old = record { pa = 0; size = 0; handle_id = 0 };
}

-- busy, and by then the time is over
abbrev late : WaitAnswer
late = record { rounds = (2, true) ∷ []; status = 0; interrupts = []; late = true }

-- memory is there at the third try
abbrev third : ℕ → TryAnswer
third i =
    if i == 2
    then record full {
      alloc = record {
        entry = some 200;
        attr = record { name = some 201; created = true };
        buffer = some (0x2000, 0x9000);
      };
      map = record { start = some 0x7000; remapped = true };
    }
    else full

abbrev driver : Driver
driver = record { dev = opened; bar = λ num. 0; retry_stats_kernel = λ i. 3 }

alloc_kernel_memory-Tried_example :
    Tried third 100 20 0 driver (alloc_kernel_memory third 100 driver)
alloc_kernel_memory-Tried_example =
    alloc_kernel_memory-Tried third 100 driver refl (λ j. omega arith)

write_dma-patient_example :
    ((write_dma board late 2 buffer 15 4 true true machine ≡ none) × All IsRunning late.rounds)
    ⊎ ((n : Machine) × (write_dma board late 2 buffer 15 4 true true machine ≡ some (ok tt, n))
        × (¬ All IsRunning late.rounds)
        × ((n.engine.channel 0).saved ≡ false)
        × ((j : ℕ) → j < 2 → (n.engine.lists 7).at j ≡ split.at j))
write_dma-patient_example =
    write_dma-patient board late 2 buffer (range 0) 15 4 true machine (omega arith) (omega arith)
      refl refl split-IsBuffer (omega arith) (omega arith) range_synced list_synced
