-- ===== src/Capi/Mappings.antt =====
-- User memory in pciDriver_Capi.c: `pd_mapUserMemory`, `pd_unmapUserMemory` and `pd_syncUserMemory`.
pub mod Owned
mod Tests
use fpga_pcie_drivers.Common.{
  ℕ, ◌+◌, ◌/◌, Bool, true, false, Option, none, some, List, [], ◌∷◌, ◌++◌, if◌then◌else◌,
}
use fpga_pcie_drivers.Kernel.{Status, failed, Event, acquire, release, heap_block}
use fpga_pcie_drivers.Device.{SgEntry, UmemHandle, UmemSglist, Privdata, uint, page_size, sg_merged}
use fpga_pcie_drivers.Umem.Map.{MapAnswer}
use fpga_pcie_drivers.Ioctl.Calls.{
  ArrayAnswer, ioctl_umem_sgmap, ioctl_umem_sgunmap, ioctl_umem_sgget, ioctl_umem_sync,
}
use fpga_pcie_drivers.Capi.Process.{Process, on, stack, minus_one, result, umem_reply, sglist_reply}

-- `pd_umem_t`; `heap` is the address of the array, and `sg` what is in it. Its `pci_handle` is the
-- process.
pub record PdUmem : Type 0 where
  pub vma : ℕ
  pub size : ℕ
  pub handle_id : ℕ
  pub nents : ℕ
  pub heap : ℕ
  pub sg : List SgEntry

-- What a mapping gets: the driver's answers to the two ioctls; the array that posix_memalign makes,
-- whose failure is not looked at and not modelled; and what the handle on the stack holds before.
pub record PdMapAnswer : Type 0 where
  pub map : MapAnswer
  pub area : ArrayAnswer
  pub heap : ℕ
  pub array : List SgEntry
  pub junk : UmemHandle

-- the scatterlist that is asked for
abbrev pub wanted : PdMapAnswer → ℕ → ℕ → UmemSglist
wanted k id size = record {
  handle_id = id;
  type = sg_merged;
  nents = uint (size / page_size + 1);
  sg = k.array;
}

-- The `int`, the handle, the process and the calls.
abbrev pub MappedUser : Type 0
MappedUser = ℕ × PdUmem × Process × List Event

-- from the second ioctl on
unfoldable pub get_list : PdMapAnswer → ℕ → UmemHandle → PdUmem → Process → List Event → MappedUser
get_list k size uh handle p calls =
    let (status, reply, d, more) =
      ioctl_umem_sgget stack k.area p.device (wanted k uh.handle_id size) in
    let list = sglist_reply reply (wanted k uh.handle_id size) in
    let (back, back_reply, undone, undo) = ioctl_umem_sgunmap stack d uh in
    let so_far = calls ++ acquire (heap_block k.heap) ∷ more in
    if failed status
    then (minus_one, handle, on p undone, so_far ++ undo ++ release (heap_block k.heap) ∷ [])
    else (0, record handle { nents = list.nents; heap = k.heap; sg = list.sg }, on p d, so_far)

-- `pd_mapUserMemory`; `vma` and `size` of the handle are not set.
unfoldable pub pd_map_user_memory : PdMapAnswer → Process → ℕ → ℕ → PdUmem → MappedUser
pd_map_user_memory k p mem size handle =
    let asked = record k.junk { vma = mem; size = uint size } in
    let (status, reply, d, calls) = ioctl_umem_sgmap stack k.map p.device asked in
    let uh = umem_reply reply asked in
    if failed status
    then (minus_one, handle, on p d, calls)
    else get_list k (uint size) uh (record handle { handle_id = uh.handle_id }) (on p d) calls

-- `pd_unmapUserMemory`; `dir` of the handle on the stack is not set.
unfoldable pub pd_unmap_user_memory : Process → ℕ → PdUmem → ℕ × Process × List Event
pd_unmap_user_memory p dir handle =
    let (status, reply, d, calls) =
      ioctl_umem_sgunmap stack p.device (record {
        vma = handle.vma;
        size = handle.size;
        handle_id = handle.handle_id;
        dir = dir;
      }) in
    (result status, on p d, calls ++ release (heap_block handle.heap) ∷ [])

-- `pd_syncUserMemory`
unfoldable pub pd_sync_user_memory : Process → PdUmem → ℕ → ℕ × Process × List Event
pd_sync_user_memory p handle dir =
    let (status, reply, d, calls) =
      ioctl_umem_sync stack p.device (record {
        vma = handle.vma;
        size = handle.size;
        handle_id = handle.handle_id;
        dir = dir;
      }) in
    (if failed status then minus_one else 0, on p d, calls)
