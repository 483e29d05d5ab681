-- ===== src/Cpp/Mapping.antt =====
-- `UserMemory` of UserMemory.cpp.
use fpga_pcie_drivers.Common.{
  ℕ, ◌+◌, ◌/◌, ◌≤◌, ◌≡◌, refl, arith, Bool, true, none, some, List, [], ◌∷◌, ◌++◌, if◌then◌else◌,
  take,
}
use fpga_pcie_drivers.Kernel.{Status, ok, failed, Event, acquire, release, heap_block}
use fpga_pcie_drivers.Device.{
  SgEntry, UmemHandle, UmemEntry, UmemSglist, Privdata, uint, page_size, sg_merged,
}
use fpga_pcie_drivers.Umem.Map.{MapAnswer, umem_sgmap, umem_find_entry_id}
use fpga_pcie_drivers.Umem.Pages.{nr_pages_of}
use fpga_pcie_drivers.Umem.Sglist.{umem_sgget}
use fpga_pcie_drivers.Umem.Bytes.{bytes}
use fpga_pcie_drivers.Umem.Get.{IsGettable, bytes-umem_sgget}
use fpga_pcie_drivers.Ioctl.Calls.{
  ArrayAnswer, ioctl_umem_sgmap, ioctl_umem_sgunmap, ioctl_umem_sgget, ioctl_umem_sync, sgget_array,
}
use fpga_pcie_drivers.Capi.Process.{Process, on, stack, umem_reply, sglist_reply}
use fpga_pcie_drivers.Capi.Mappings.Owned.{map_called}
use fpga_pcie_drivers.Cpp.Device.{
  not_open, sgmap_failed, internal_error, PciDevice, Outcome, returns, throws, Ended,
}

-- `UserMemory`; its `device` is the PciDevice. `heap` is the address of the array `sg`.
pub record UserMemory : Type 0 where
  pub vma : ℕ
  pub size : ℕ
  pub handle_id : ℕ
  pub nents : ℕ
  pub heap : ℕ
  pub sg : List SgEntry

-- What the constructor gets: the driver's answers to its ioctls; the two arrays that `new` makes, whose
-- failure is not modelled, and what the first one holds; and the handle on the stack before it is set.
pub record UserAnswer : Type 0 where
  pub map : MapAnswer
  pub area : ArrayAnswer
  pub temporary : ℕ
  pub entries : ℕ
  pub array : List SgEntry
  pub junk : UmemHandle

-- PCIDRIVER_SG_NONMERGED
abbrev pub sg_nonmerged : ℕ
sg_nonmerged = 0

-- the scatterlist that is asked for
abbrev pub requested : UserAnswer → ℕ → ℕ → Bool → UmemSglist
requested k id size merged = record {
  handle_id = id;
  type = if merged then sg_merged else sg_nonmerged;
  nents = uint (size / page_size + 2);
  sg = k.array;
}

abbrev pub MadeUser : Type 0
MadeUser = Outcome UserMemory × Process × List Event

-- from the second ioctl on
unfoldable pub obtain_list :
    UserAnswer → ℕ → ℕ → Bool → UmemHandle → Process → List Event → MadeUser
obtain_list k mem size merged uh p calls =
    let sgl = requested k uh.handle_id size merged in
    let (status, reply, d, more) = ioctl_umem_sgget stack k.area p.device sgl in
    let got = sglist_reply reply sgl in
    let (back, back_reply, undone, undo) = ioctl_umem_sgunmap stack d uh in
    let so_far = calls ++ acquire (heap_block k.temporary) ∷ more in
    let copied = acquire (heap_block k.entries) ∷ release (heap_block k.temporary) ∷ [] in
    if failed status
    then (throws sgmap_failed, on p undone, so_far ++ undo ++ release (heap_block k.temporary) ∷ [])
    else (
      returns (record {
        vma = mem;
        size = size;
        handle_id = uh.handle_id;
        nents = got.nents;
        heap = k.entries;
        sg = take got.nents got.sg;
      }),
      on p d,
      so_far ++ copied,
    )

-- `UserMemory::UserMemory`
unfoldable pub new_user_memory : UserAnswer → PciDevice → ℕ → ℕ → Bool → MadeUser
new_user_memory k dev mem size merged =
    let asked = record k.junk { vma = mem; size = uint size } in
    let (status, reply, d, calls) = ioctl_umem_sgmap stack k.map dev.process.device asked in
    let uh = umem_reply reply asked in
    if dev.is_open
    then (if failed status
        then (throws sgmap_failed, on dev.process d, calls)
        else obtain_list k mem (uint size) merged uh (on dev.process d) calls)
    else (throws not_open, dev.process, [])

-- `UserMemory::~UserMemory`; `dir` of the handle on the stack is not set.
unfoldable pub delete_user_memory : PciDevice → ℕ → UserMemory → Ended
delete_user_memory dev dir m =
    let (status, reply, d, calls) =
      ioctl_umem_sgunmap stack dev.process.device
        (record { vma = m.vma; size = m.size; handle_id = m.handle_id; dir = dir }) in
    let deleted = release (heap_block m.heap) in
    if dev.is_open
    then (if failed status then some internal_error else none, on dev.process d, deleted ∷ calls)
    else (some not_open, dev.process, deleted ∷ [])

-- `UserMemory::sync`
unfoldable pub sync_user_memory : PciDevice → UserMemory → ℕ → Ended
sync_user_memory dev m dir =
    let (status, reply, d, calls) =
      ioctl_umem_sync stack dev.process.device
        (record { vma = m.vma; size = m.size; handle_id = m.handle_id; dir = dir }) in
    if dev.is_open
    then (if failed status then some internal_error else none, on dev.process d, calls)
    else (some not_open, dev.process, [])

-- The entries that are asked for are enough for the pages of any range.
room : (mem size : ℕ) → nr_pages_of mem (uint size) ≤ uint (uint size / page_size + 2)
unfolding nr_pages_of
room mem size = omega arith

sgget_called :
    (a : ArrayAnswer) (d : Privdata) (l : UmemSglist) (area : ℕ)
    → a ≡ record { area = some area; copied_in = true; copied_out = true }
    → (umem_sgget d l).0 ≡ ok
    → (ioctl_umem_sgget stack a d l).0 ≡ ok
      × (sglist_reply (ioctl_umem_sgget stack a d l).1 l ≡ (umem_sgget d l).1)
unfolding ioctl_umem_sgget sgget_array
sgget_called a d l area faultless good = simp (faultless, good) (refl, refl)

module _ (k : UserAnswer) (dev : PciDevice) (mem size : ℕ) (merged : Bool) where
  abbrev made : Status × UmemHandle × Privdata × List Event
  made = umem_sgmap k.map dev.process.device (record k.junk { vma = mem; size = uint size })

  -- The driver maps the memory for an open device, to an entry `e` of its list with at most one bus
  -- entry for every page, and the array is copied without faults. Then the constructor of UserMemory
  -- does not throw: two entries more than there are whole pages are always enough. Its list, merged or
  -- not, stands for the same bytes in the same order as the mapping's, with no more entries.
  pub new_user_memory-bytes :
      (e : UmemEntry) (area : ℕ)
      → dev.is_open ≡ true
      → (umem_sgmap k.map dev.process.device (record k.junk { vma = mem; size = uint size })).0 ≡ ok
      → umem_find_entry_id made.2 made.1.handle_id ≡ some e
      → e.nents ≤ nr_pages_of mem (uint size)
      → k.area ≡ record { area = some area; copied_in = true; copied_out = true }
      → IsGettable (requested k made.1.handle_id (uint size) merged) e
      → (m : UserMemory) × ((new_user_memory k dev mem size merged).0 ≡ returns m)
        × (bytes m.sg ≡ bytes e.sg)
        × (m.nents ≤ e.nents)
  unfolding new_user_memory obtain_list
  new_user_memory-bytes e area opened good found pages faultless g =
      let l = requested k made.1.handle_id (uint size) merged in
      let (fine, same, fewer) =
        bytes-umem_sgget made.2 l e found (omega (arith, room mem size, pages)) g in
      let (called, replied) = sgget_called k.area made.2 l area faultless fine in
      let got = (umem_sgget made.2 l).1 in
      (
        record {
          vma = mem;
          size = uint size;
          handle_id = made.1.handle_id;
          nents = got.nents;
          heap = k.entries;
          sg = take got.nents got.sg;
        },
        simp
            (
              opened,
              map_called k.map dev.process.device (record k.junk { vma = mem; size = uint size })
                  good,
              called,
              replied,
            )
            refl,
        same,
        fewer,
      )
