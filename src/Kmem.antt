-- ===== src/Kmem.antt =====
-- Kernel memory: opencores_driver/src/driver/kmem.c. A list of coherent DMA buffers for each
-- device.
pub mod Invariant
pub mod Lookup
pub mod Cleanup
pub mod Refinement
mod Tests
use fpga_pcie_drivers.Common.{
  ℕ, ◌+◌, ◌-◌, ◌^◌, Bool, not, ◌&&◌, Option, none, some, List, [], ◌∷◌, ◌++◌, ltb, ◌==◌,
  if◌then◌else◌, find_by, remove_by, get_last?,
}
use fpga_pcie_drivers.Kernel.{
  Status, ok, err, enomem, einval, efault, eagain, failed, kbuf, block, dma_buffer, Event, acquire,
  release, act, sync_for_device, sync_for_cpu, bidirectional, to_device, from_device,
  remap_cpua_range,
}
use fpga_pcie_drivers.Device.{
  KmemHandle, KmemSync, KmemEntry, Privdata, page_size, ulong, uint, dma_bidirectional,
  dma_todevice, dma_fromdevice,
}
use fpga_pcie_drivers.Sysfs.{SysfsAnswer, sysfs_initialize, sysfs_remove}

-- What the kernel answers to an allocation: the entry's address, the attribute, and the cpu and
-- bus address of the buffer.
pub record AllocAnswer : Type 0 where
  pub entry : Option ℕ
  pub attr : SysfsAnswer
  pub buffer : Option (ℕ × ℕ)

-- `pcidriver_kmem_alloc` once the entry is allocated at `p`
kmem_alloc_at :
    ℕ → AllocAnswer → Privdata → KmemHandle → Status × KmemHandle × Privdata × List Event
kmem_alloc_at p k d h =
    let id = d.kmem_count in
    let counted = record d { kmem_count = uint (d.kmem_count + 1) } in
    let (status, name, calls) = sysfs_initialize (kbuf id) k.attr in
    if failed status
    then (
      err enomem,
      record h { handle_id = id },
      counted,
      acquire (block p) ∷ calls ++ release (block p) ∷ [],
    )
    else elim k.buffer [
      | none ↦ (
        err enomem,
        record h { handle_id = id },
        counted,
        acquire (block p) ∷ calls ++ release (block p) ∷ [],
      )
      | some (cpua, pa) ↦
          let entry : KmemEntry = record {
            addr = p;
            id = id;
            dma_handle = pa;
            cpua = cpua;
            size = h.size;
            name = name;
          } in
          (
            ok,
            record h { handle_id = id; pa = pa },
            record counted { kmem_list = d.kmem_list ++ entry ∷ [] },
            acquire (block p) ∷ calls ++ acquire (dma_buffer h.size cpua pa) ∷ [],
          )
    ]

-- `pcidriver_kmem_alloc`: the status, the handle as written, the device, and the calls made.
unfoldable pub kmem_alloc :
    AllocAnswer → Privdata → KmemHandle → Status × KmemHandle × Privdata × List Event
unfolding kmem_alloc_at sysfs_initialize
kmem_alloc k d h = elim k.entry [ none ↦ (err enomem, h, d, []) | some p ↦ kmem_alloc_at p k d h ]

-- `pcidriver_kmem_find_entry`: the first entry with the handle's bus address
unfoldable pub kmem_find_entry : Privdata → KmemHandle → Option KmemEntry
kmem_find_entry d h = find_by (λ e. e.dma_handle) h.pa d.kmem_list

-- `pcidriver_kmem_find_entry_id`
unfoldable pub kmem_find_entry_id : Privdata → ℕ → Option KmemEntry
kmem_find_entry_id d id = find_by (λ e. e.id) id d.kmem_list

-- the calls of `pcidriver_kmem_free_entry`
kmem_free_calls : KmemEntry → List Event
unfolding sysfs_remove
kmem_free_calls e =
    sysfs_remove (kbuf e.id) e.name
    ++ release (dma_buffer e.size e.cpua e.dma_handle) ∷ release (block e.addr) ∷ []

-- `pcidriver_kmem_free_entry`
unfoldable pub kmem_free_entry : Privdata → KmemEntry → Status × Privdata × List Event
unfolding kmem_free_calls
kmem_free_entry d e =
    (ok, record d { kmem_list = remove_by (λ x. x.addr) e.addr d.kmem_list }, kmem_free_calls e)

-- `pcidriver_kmem_free`
unfoldable pub kmem_free : Privdata → KmemHandle → Status × Privdata × List Event
unfolding kmem_free_entry kmem_find_entry
kmem_free d h = elim (kmem_find_entry d h) [
  | none ↦ (err einval, d, [])
  | some e ↦ kmem_free_entry d e
]

-- the loop of `pcidriver_kmem_free_all` over the entries that `list_for_each_safe` visits
free_each : Privdata → List KmemEntry → Privdata × List Event
free_each d [] = (d, [])
free_each d (e ∷ es) =
    let (status, freed, calls) = kmem_free_entry d e in
    let (rest, more) = free_each freed es in (rest, calls ++ more)

-- `pcidriver_kmem_free_all`
unfoldable pub kmem_free_all : Privdata → Status × Privdata × List Event
unfolding free_each kmem_free_entry
kmem_free_all d = let (rest, calls) = free_each d d.kmem_list in (ok, rest, calls)

-- the `switch` of `pcidriver_kmem_sync` on the entry that was found
sync_entry : KmemEntry → ℕ → Status × List Event
sync_entry e dir =
    if dir == dma_todevice
    then (ok, act (sync_for_device e.dma_handle e.size to_device) ∷ [])
    else if dir == dma_fromdevice
    then (ok, act (sync_for_cpu e.dma_handle e.size from_device) ∷ [])
    else if dir == dma_bidirectional
    then (
      ok,
      act (sync_for_device e.dma_handle e.size bidirectional)
          ∷ act (sync_for_cpu e.dma_handle e.size bidirectional)
          ∷ [],
    )
    else (err einval, [])

-- `pcidriver_kmem_sync`
unfoldable pub kmem_sync : Privdata → KmemSync → Status × List Event
unfolding sync_entry kmem_find_entry
kmem_sync d s = elim (kmem_find_entry d s.handle) [
  | none ↦ (err einval, [])
  | some e ↦ sync_entry e s.dir
]

-- The size check that both mmap handlers make of a buffer of `size` bytes: true is -EINVAL.
unfoldable pub wrong_size : ℕ → ℕ → Bool
wrong_size vma_size size =
    not (vma_size == size) && ltb size page_size && not (vma_size == page_size)

-- `pcidriver_mmap_kmem` on the latest entry; `remapped` is the answer of remap_pfn_range.
mmap_kmem_entry : Bool → ℕ → ℕ → KmemEntry → Status × List Event
unfolding wrong_size
mmap_kmem_entry remapped vm_start vm_end e =
    if wrong_size (ulong (vm_end + 2 ^ 64 - vm_start)) e.size
    then (err einval, [])
    else (if remapped then ok else err eagain, act (remap_cpua_range vm_start e.cpua e.size) ∷ [])

-- `pcidriver_mmap_kmem`
unfoldable pub mmap_kmem_buffer : Bool → Privdata → ℕ → ℕ → Status × List Event
unfolding mmap_kmem_entry
mmap_kmem_buffer remapped d vm_start vm_end = elim (get_last? d.kmem_list) [
  | none ↦ (err efault, [])
  | some e ↦ mmap_kmem_entry remapped vm_start vm_end e
]
