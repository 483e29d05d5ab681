-- ===== src/Umem/Tests.antt =====
-- The mappings of user memory at a concrete device.
use fpga_pcie_drivers.Common.{
  ℕ, ◌+◌, ◌≤◌, ◌≡◌, inl, inr, refl, Bool, true, false, some, map, [], ◌∷◌, arith, count, take,
  IsFresh, find_by,
}
use fpga_pcie_drivers.Kernel.{ok, Resource, acquired, released}
use fpga_pcie_drivers.Device.{UmemHandle, UmemSglist, SgEntry, Page, UmemEntry, PciDev, Privdata}
use fpga_pcie_drivers.Umem.Pages.{nr_pages_of, populate}
use fpga_pcie_drivers.Umem.Coverage.{range, addresses, located, addresses-populate}
use fpga_pcie_drivers.Umem.Map.{
  MapAnswer, umem_sgmap, sgmap_pages, sgmap_entry, umem_sgunmap, umem_find_entry_id,
}
use fpga_pcie_drivers.Umem.Pinned.{IsPinning}
use fpga_pcie_drivers.Umem.Balance.{umem_sgmap_fails_balanced}
use fpga_pcie_drivers.Umem.Lifecycle.{IsValid}
use fpga_pcie_drivers.Umem.Roundtrip.{umem_sgunmap-umem_sgmap}
use fpga_pcie_drivers.Umem.Sglist.{umem_sgget}
use fpga_pcie_drivers.Umem.Bytes.{bytes}
use fpga_pcie_drivers.Umem.Get.{IsGettable, bytes-umem_sgget}

abbrev board : PciDev
board = record { vendor = 0x10dc; device = 0x0153; bus = 1; devfn = 8; irq = 11; bars = [] }

abbrev page : ℕ → Page
page n = record { frame = n; reserved = false; locked = false }

abbrev chunk : ℕ → ℕ → SgEntry
chunk addr size = record { addr = addr; size = size }

-- Three chunks, of which the first two are one piece of bus memory.
abbrev mapping : UmemEntry
mapping = record {
  addr = 400;
  id = 0;
  nr_pages = 3;
  pages_ptr = 401;
  pages = page 7 ∷ page 8 ∷ page 20 ∷ [];
  nents = 3;
  sg_ptr = 402;
  sg = chunk 0x7000 4096 ∷ chunk 0x8000 4096 ∷ chunk 0x20000 100 ∷ [];
  name = 403;
}

abbrev device : Privdata
device = record {
  devno = 0;
  pdev = board;
  mmap_mode = 0;
  mmap_area = 0;
  irq_enabled = false;
  irq_count = 0;
  irq_outstanding = [];
  bars_kmapped = [];
  kmem_list = [];
  kmem_count = 0;
  umem_list = mapping ∷ [];
  umem_count = 1;
}

-- 100 bytes over the end of a page
abbrev request : UmemHandle
request = record { vma = 0x5fc0; size = 100; handle_id = 0; dir = 0 }

abbrev granted : MapAnswer
granted = record {
  pages_area = some 500;
  sg_area = some 501;
  res = 2;
  pinned = page 30 ∷ page 31 ∷ [];
  mapped = chunk 0x30fc0 64 ∷ chunk 0x31000 36 ∷ [];
  entry = some 502;
  attr = record { name = some 503; created = true };
}

-- Only one of the two pages is pinned.
abbrev partial : MapAnswer
partial = record granted { res = 1; pinned = record (page 30) { locked = true } ∷ [] }

abbrev any : Resource → Bool
any r = true

granted-IsPinning : IsPinning granted request
granted-IsPinning = record { counted = inl refl; at_most = unfold nr_pages_of in omega arith }

partial-IsPinning : IsPinning partial request
partial-IsPinning = record { counted = inl refl; at_most = unfold nr_pages_of in omega arith }

granted-IsFresh : (p : ℕ) → granted.entry ≡ some p → IsFresh (λ x. x.addr) p device.umem_list
granted-IsFresh p e = ground arith

device-IsValid : IsValid device
device-IsValid = record { blocks = (tt, tt); ids = (tt, tt); below = (omega arith, tt) }

addresses-populate_example :
    addresses (populate 4032 100 (page 30 ∷ page 71 ∷ []))
    ≡ map (located 5 (page 30 ∷ page 71 ∷ [])) (range 0x5fc0 100)
addresses-populate_example =
    addresses-populate 0x5fc0 100 (page 30 ∷ page 71 ∷ []) (omega arith) (omega arith)
      (unfold nr_pages_of in refl)

-- somebody holds the lock of the page that is pinned
umem_sgmap_fails_balanced_example :
    count any (released (umem_sgmap partial device request).3)
    ≡ count any (acquired (umem_sgmap partial device request).3) + 1
unfolding nr_pages_of count
umem_sgmap_fails_balanced_example =
    umem_sgmap_fails_balanced partial device request any (omega arith) partial-IsPinning
      (unfold umem_sgmap sgmap_pages nr_pages_of in refl) (inr refl)

granted_ok : (umem_sgmap granted device request).0 ≡ ok
unfolding umem_sgmap sgmap_pages sgmap_entry nr_pages_of
granted_ok = refl

umem_sgunmap-umem_sgmap_example :
    let (status, handle, used, calls) = umem_sgmap granted device request in
    (e : UmemEntry) × (umem_find_entry_id used handle.handle_id ≡ some e)
    × ((umem_sgunmap used e).0 ≡ ok)
    × ((umem_sgunmap used e).1.umem_list ≡ mapping ∷ [])
    × (count any (released (umem_sgunmap used e).2) + count any (released calls)
        ≡ count any (acquired calls))
umem_sgunmap-umem_sgmap_example =
    umem_sgunmap-umem_sgmap granted device request any (omega arith) granted-IsPinning
      granted-IsFresh device-IsValid granted_ok

abbrev array : UmemSglist
array = record { handle_id = 0; type = 1; nents = 3; sg = chunk 0 0 ∷ chunk 0 0 ∷ chunk 0 0 ∷ [] }

found : umem_find_entry_id device 0 ≡ some mapping
unfolding umem_find_entry_id find_by
found = refl

array-IsGettable : IsGettable array mapping
array-IsGettable = record {
  array = refl;
  entries = refl;
  some_entry = omega arith;
  bus = (omega arith, (omega arith, (omega arith, tt)));
  small = omega arith;
}

bytes-umem_sgget_example :
    ((umem_sgget device array).0 ≡ ok)
    × (bytes (take (umem_sgget device array).1.nents (umem_sgget device array).1.sg)
        ≡ bytes mapping.sg)
    × ((umem_sgget device array).1.nents ≤ 3)
bytes-umem_sgget_example =
    bytes-umem_sgget device array mapping found (omega arith) array-IsGettable
