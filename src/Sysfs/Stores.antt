-- ===== src/Sysfs/Stores.antt =====
-- The attributes that user space writes: sysfs.c, `pcidriver_store_mmap_mode` to
-- `pcidriver_store_umem_unmap`. The number that sscanf reads from the text is an argument, none if it
-- reads none; each function returns the length of the text, which is left out.
use fpga_pcie_drivers.Common.{
  ℕ, ◌-◌, ◌^◌, Option, none, some, List, [], leb, ltb, ◌==◌, ◌&&◌, if◌then◌else◌,
}
use fpga_pcie_drivers.Kernel.{Event}
use fpga_pcie_drivers.Device.{Privdata, mmap_pci, mmap_kmem, bar5}
use fpga_pcie_drivers.Kmem.{AllocAnswer, kmem_alloc, kmem_find_entry_id, kmem_free_entry}
use fpga_pcie_drivers.Umem.Map.{umem_find_entry_id, umem_sgunmap}

-- The device, and the calls.
abbrev pub Stored : Type 0
Stored = Privdata × List Event

-- an `int` that is -1 until sscanf sets it
abbrev pub parsed_int : Option ℕ → ℕ
parsed_int none = 2 ^ 32 - 1
parsed_int (some n) = n

-- `pcidriver_store_mmap_mode`
unfoldable pub store_mmap_mode : Privdata → Option ℕ → Stored
store_mmap_mode d none = (d, [])
store_mmap_mode d (some mode) =
    if mode == mmap_pci
    then (record d { mmap_mode = mode }, [])
    else if mode == mmap_kmem
    then (record d { mmap_mode = mode }, [])
    else (d, [])

-- `pcidriver_store_mmap_area`
unfoldable pub store_mmap_area : Privdata → Option ℕ → Stored
store_mmap_area d parsed =
    let temp = parsed_int parsed in
    if ltb temp (2 ^ 31) && leb temp bar5 then (record d { mmap_area = temp }, []) else (d, [])

-- `pcidriver_store_kmem_alloc`; `pa` and `handle_id` of the handle are not set.
unfoldable pub store_kmem_alloc : AllocAnswer → Privdata → ℕ → ℕ → Option ℕ → Stored
store_kmem_alloc k d pa handle_id none = (d, [])
store_kmem_alloc k d pa handle_id (some size) =
    let (status, handle, d', calls) =
      kmem_alloc k d (record { pa = pa; size = size; handle_id = handle_id }) in
    (d', calls)

-- `pcidriver_store_kmem_free`
unfoldable pub store_kmem_free : Privdata → Option ℕ → Stored
store_kmem_free d none = (d, [])
store_kmem_free d (some id) =
    if leb d.kmem_count id then (d, []) else elim (kmem_find_entry_id d id) [
      | none ↦ (d, [])
      | some e ↦ let (status, d', calls) = kmem_free_entry d e in (d', calls)
    ]

-- `pcidriver_store_umem_unmap`
unfoldable pub store_umem_unmap : Privdata → Option ℕ → Stored
store_umem_unmap d none = (d, [])
store_umem_unmap d (some id) =
    if leb d.umem_count id then (d, []) else elim (umem_find_entry_id d id) [
      | none ↦ (d, [])
      | some e ↦ let (status, d', calls) = umem_sgunmap d e in (d', calls)
    ]
