-- ===== src/Kmem/Tests.antt =====
-- The kernel buffers at concrete devices.
use fpga_pcie_drivers.Common.{◌≡◌, refl, true, false, none, some, [], ◌∷◌, arith, find_by}
use fpga_pcie_drivers.Kernel.{acquired, released, ok, kbuf, block, sysfs_file}
use fpga_pcie_drivers.Device.{KmemHandle, KmemSync, KmemEntry, Privdata, PciDev}
use fpga_pcie_drivers.Kmem.{AllocAnswer, kmem_alloc, kmem_free, kmem_find_entry, kmem_free_entry}
use fpga_pcie_drivers.Kmem.Invariant.{IsValid, IsFreshAnswer}
use fpga_pcie_drivers.Kmem.Lookup.{view}
use fpga_pcie_drivers.Kmem.Cleanup.{kmem_alloc_leaks}
use fpga_pcie_drivers.Kmem.Refinement.{
  Calls, Specs, stop, call, allocates, frees, freed, allocated, Calls-Specs,
}

abbrev board : PciDev
board = record { vendor = 0x10dc; device = 0x0153; bus = 1; devfn = 8; irq = 11; bars = [] }

abbrev first : KmemEntry
first = record { addr = 100; id = 0; dma_handle = 0x8000; cpua = 0x1000; size = 8192; name = 101 }

-- A device with one buffer.
abbrev device : Privdata
device = record {
  devno = 0;
  pdev = board;
  mmap_mode = 0;
  mmap_area = 0;
  irq_enabled = false;
  irq_count = 0;
  irq_outstanding = [];
  bars_kmapped = [];
  kmem_list = first ∷ [];
  kmem_count = 1;
  umem_list = [];
  umem_count = 0;
}

abbrev request : KmemHandle
request = record { pa = 0; size = 4096; handle_id = 0 }

abbrev granted : AllocAnswer
granted = record {
  entry = some 200;
  attr = record { name = some 201; created = true };
  buffer = some (0x2000, 0x9000);
}

-- The attribute is made, and there is no DMA memory left.
abbrev exhausted : AllocAnswer
exhausted = record {
  entry = some 200;
  attr = record { name = some 201; created = true };
  buffer = none;
}

abbrev known : KmemHandle
known = record { pa = 0x8000; size = 0; handle_id = 0 }

granted_fresh : IsFreshAnswer granted device
granted_fresh = record { entry = λ p e. ground arith; buffer = λ c e. ground arith }

device-IsValid : IsValid device
device-IsValid = omega arith

granted_ok : (kmem_alloc granted device request).0 ≡ ok
unfolding kmem_alloc
granted_ok = refl

kmem_alloc_leaks_example :
    (acquired (kmem_alloc exhausted device request).3
      ≡ block 200 ∷ block 201 ∷ sysfs_file (kbuf 1) ∷ [])
    × (released (kmem_alloc exhausted device request).3 ≡ block 200 ∷ [])
kmem_alloc_leaks_example =
    kmem_alloc_leaks exhausted device request 200 201 (unfold kmem_alloc in refl) refl refl

abbrev sync_request : KmemSync
sync_request = record { handle = known; dir = 7 }

-- A buffer is made, and the first one is freed.
history :
    Calls device
      (freed 0x8000
        ∷ allocated
            (kmem_alloc granted device request).1.pa
            (kmem_alloc granted device request).1.handle_id
            4096
        ∷ [])
      (kmem_free (kmem_alloc granted device request).2 known).1
history =
    call (call stop (allocates granted request granted_fresh (omega arith) granted_ok))
      (frees known (unfold kmem_free kmem_alloc kmem_find_entry kmem_free_entry find_by in refl))

Calls-Specs_example :
    Specs
      (view device)
      (freed 0x8000
        ∷ allocated
            (kmem_alloc granted device request).1.pa
            (kmem_alloc granted device request).1.handle_id
            4096
        ∷ [])
      (view (kmem_free (kmem_alloc granted device request).2 known).1)
Calls-Specs_example = Calls-Specs device _ _ device-IsValid history
