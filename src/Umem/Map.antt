-- ===== src/Umem/Map.antt =====
-- The operations of umem.c that change the device's list of mappings.
use fpga_pcie_drivers.Common.{
  ℕ, ◌+◌, Option, none, some, List, [], ◌∷◌, ◌++◌, map, ◌==◌, if◌then◌else◌, find_by, remove_by,
  take, length,
}
use fpga_pcie_drivers.Kernel.{
  Status, ok, err, enomem, einval, failed, umem, block, vm_area, sg_mapping, Event, acquire,
  release, act, sync_sg_for_device, sync_sg_for_cpu, bidirectional, to_device, from_device,
}
use fpga_pcie_drivers.Device.{
  UmemHandle, SgEntry, Page, UmemEntry, Privdata, uint, dma_bidirectional, dma_todevice,
  dma_fromdevice,
}
use fpga_pcie_drivers.Sysfs.{SysfsAnswer, sysfs_initialize, sysfs_remove}
use fpga_pcie_drivers.Umem.Pages.{
  lt_int, nr_pages_of, visited, lock_page, lock_calls, pin_calls, undo_calls, unpin_calls,
}

-- What the kernel answers to a mapping: the two vmalloc areas; the result of get_user_pages, an
-- `int` as a 32-bit pattern, and the pages that it has pinned; the bus entries of pci_map_sg, none
-- if it fails; the new entry's address; and the attribute.
pub record MapAnswer : Type 0 where
  pub pages_area : Option ℕ
  pub sg_area : Option ℕ
  pub res : ℕ
  pub pinned : List Page
  pub mapped : List SgEntry
  pub entry : Option ℕ
  pub attr : SysfsAnswer

-- What `pcidriver_umem_sgmap` returns, with the handle and the device as it leaves them.
abbrev pub Mapped : Type 0
Mapped = Status × UmemHandle × Privdata × List Event

-- the pages that a loop up to `nr_pages` visits
abbrev pub up_to : ℕ → List Page → List Page
up_to nr ps = if lt_int 0 nr then take nr ps else []

-- the pages once the first loop has locked them
abbrev pub locked_pages : ℕ → List Page → List Page
locked_pages nr ps = map lock_page (take (visited nr) ps)

-- the calls from `umem_sgmap_unmap` on
abbrev pub undo_pages : ℕ → ℕ → List Page → List Event
undo_pages pages_ptr sg_ptr ps =
    undo_calls ps ++ release (vm_area sg_ptr) ∷ release (vm_area pages_ptr) ∷ []

-- from the allocation of the entry on, the pages locked and mapped; `done` are the calls so far
unfoldable pub sgmap_entry : ℕ → ℕ → ℕ → List Event → MapAnswer → Privdata → UmemHandle → Mapped
unfolding sysfs_initialize
sgmap_entry pages_ptr sg_ptr nr done k d h =
    let ps = locked_pages nr k.pinned in
    let undo = release (sg_mapping sg_ptr nr) ∷ undo_pages pages_ptr sg_ptr (up_to nr ps) in
    elim k.entry [
      | none ↦ (err enomem, h, d, done ++ undo)
      | some p ↦
          let id = d.umem_count in
          let counted = record d { umem_count = uint (d.umem_count + 1) } in
          let (status, name, calls) = sysfs_initialize (umem id) k.attr in
          let entry : UmemEntry = record {
            addr = p;
            id = id;
            nr_pages = nr;
            pages_ptr = pages_ptr;
            pages = ps;
            nents = length k.mapped;
            sg_ptr = sg_ptr;
            sg = k.mapped;
            name = name;
          } in
          if failed status
          then (
            err enomem,
            h,
            counted,
            done ++ acquire (block p) ∷ calls ++ release (block p) ∷ undo,
          )
          else (
            ok,
            record h { handle_id = id },
            record counted { umem_list = d.umem_list ++ entry ∷ [] },
            done ++ acquire (block p) ∷ calls,
          )
    ]

-- from get_user_pages on, both areas allocated
unfoldable pub sgmap_pages : ℕ → ℕ → ℕ → MapAnswer → Privdata → UmemHandle → Mapped
sgmap_pages pages_ptr sg_ptr nr k d h =
    let pinned = acquire (vm_area pages_ptr) ∷ acquire (vm_area sg_ptr) ∷ pin_calls k.pinned in
    let locked = pinned ++ lock_calls (take (visited nr) k.pinned) in
    if lt_int k.res nr
    then (err enomem, h, d, pinned ++ undo_pages pages_ptr sg_ptr (up_to k.res k.pinned))
    else elim k.mapped [
      | [] ↦ (
        err enomem,
        h,
        d,
        locked ++ undo_pages pages_ptr sg_ptr (up_to nr (locked_pages nr k.pinned)),
      )
      | e ∷ es ↦
          sgmap_entry pages_ptr sg_ptr nr (locked ++ acquire (sg_mapping sg_ptr nr) ∷ []) k d h
    ]

-- `pcidriver_umem_sgmap`
unfoldable pub umem_sgmap : MapAnswer → Privdata → UmemHandle → Mapped
umem_sgmap k d h = if h.size == 0 then (err einval, h, d, []) else elim k.pages_area [
  | none ↦ (err enomem, h, d, [])
  | some pages_ptr ↦ elim k.sg_area [
    | none ↦ (err enomem, h, d, acquire (vm_area pages_ptr) ∷ release (vm_area pages_ptr) ∷ [])
    | some sg_ptr ↦ sgmap_pages pages_ptr sg_ptr (nr_pages_of h.vma h.size) k d h
  ]
]

-- the calls of `pcidriver_umem_sgunmap`
sgunmap_calls : UmemEntry → List Event
unfolding sysfs_remove unpin_calls
sgunmap_calls e =
    sysfs_remove (umem e.id) e.name
    ++ release (sg_mapping e.sg_ptr e.nr_pages) ∷ unpin_calls (up_to e.nr_pages e.pages)
    ++ release (vm_area e.pages_ptr) ∷ release (vm_area e.sg_ptr) ∷ release (block e.addr) ∷ []

-- `pcidriver_umem_sgunmap`
unfoldable pub umem_sgunmap : Privdata → UmemEntry → Status × Privdata × List Event
unfolding sgunmap_calls
umem_sgunmap d e =
    (ok, record d { umem_list = remove_by (λ x. x.addr) e.addr d.umem_list }, sgunmap_calls e)

-- the loop of `pcidriver_umem_sgunmap_all`
unfoldable pub unmap_each : Privdata → List UmemEntry → Privdata × List Event
unmap_each d [] = (d, [])
unmap_each d (e ∷ es) =
    let (status, unmapped, calls) = umem_sgunmap d e in
    let (rest, more) = unmap_each unmapped es in (rest, calls ++ more)

-- `pcidriver_umem_sgunmap_all`
unfoldable pub umem_sgunmap_all : Privdata → Status × Privdata × List Event
unfolding unmap_each
umem_sgunmap_all d = let (rest, calls) = unmap_each d d.umem_list in (ok, rest, calls)

-- `pcidriver_umem_find_entry_id`
unfoldable pub umem_find_entry_id : Privdata → ℕ → Option UmemEntry
umem_find_entry_id d id = find_by (λ e. e.id) id d.umem_list

-- the `switch` of `pcidriver_umem_sync` on the entry that was found
sync_sg_entry : UmemEntry → ℕ → Status × List Event
sync_sg_entry e dir =
    if dir == dma_todevice
    then (ok, act (sync_sg_for_device e.sg_ptr e.nents to_device) ∷ [])
    else if dir == dma_fromdevice
    then (ok, act (sync_sg_for_cpu e.sg_ptr e.nents from_device) ∷ [])
    else if dir == dma_bidirectional
    then (
      ok,
      act (sync_sg_for_device e.sg_ptr e.nents bidirectional)
          ∷ act (sync_sg_for_cpu e.sg_ptr e.nents bidirectional)
          ∷ [],
    )
    else (err einval, [])

-- `pcidriver_umem_sync`
unfoldable pub umem_sync : Privdata → UmemHandle → Status × List Event
unfolding sync_sg_entry umem_find_entry_id
umem_sync d h = elim (umem_find_entry_id d h.handle_id) [
  | none ↦ (err einval, [])
  | some e ↦ sync_sg_entry e h.dir
]
