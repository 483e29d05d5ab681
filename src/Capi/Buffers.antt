-- ===== src/Capi/Buffers.antt =====
-- Kernel memory in pciDriver_Capi.c: `pd_allocKernelMemory`, `pd_freeKernelMemory` and
-- `pd_syncKernelMemory`.
pub mod Mapped
pub mod Endings
pub mod Owned
use fpga_pcie_drivers.Common.{
  ℕ, Bool, true, false, Option, none, some, List, [], ◌∷◌, ◌++◌, if◌then◌else◌,
}
use fpga_pcie_drivers.Kernel.{Status, failed, Event, act, munmap}
use fpga_pcie_drivers.Device.{KmemHandle, KmemSync, Privdata, uint, mmap_kmem}
use fpga_pcie_drivers.Kmem.{AllocAnswer}
use fpga_pcie_drivers.Ioctl.Config.{ioctl_mmap_mode}
use fpga_pcie_drivers.Ioctl.Calls.{ioctl_kmem_alloc, ioctl_kmem_free, ioctl_kmem_sync}
use fpga_pcie_drivers.Capi.Process.{
  Process, on, unlocked, lock, stack, minus_one, result, kmem_reply, VmAnswer, mmap_device,
}

-- `pd_kmem_t`; its `pci_handle` is the process.
pub record PdKmem : Type 0 where
  pub pa : ℕ
  pub size : ℕ
  pub mem : ℕ
  pub handle_id : ℕ

-- The pointer that is returned, none for NULL; the handle, the process and the calls. None if the
-- process waits for the mutex.
abbrev pub Allocated : Type 0
Allocated = Option (Option ℕ × PdKmem × Process × List Event)

-- from `pd_allockm_err` on
abbrev pub allockm_err : KmemHandle → PdKmem → Process → List Event → Allocated
allockm_err kh handle p calls =
    let (status, reply, d, more) = ioctl_kmem_free stack p.device kh in
    some (none, handle, on (unlocked p) d, calls ++ more)

-- with the mutex taken: the mode, and the mapping
unfoldable pub map_buffer : VmAnswer → KmemHandle → PdKmem → ℕ → Process → List Event → Allocated
map_buffer v kh handle size p calls =
    let (status, reply, d, more) = ioctl_mmap_mode p.device mmap_kmem in
    let (start, mapping) = mmap_device v d size in
    if failed status then allockm_err kh handle (on p d) (calls ++ more) else elim start [
      | none ↦ allockm_err kh handle (on p d) (calls ++ more ++ mapping)
      | some mem ↦
          some (some mem, record handle { mem = mem }, unlocked (on p d), calls ++ more ++ mapping)
    ]

-- `pd_allocKernelMemory`; `old` is the `kmem_handle_t` on the stack before it is set.
unfoldable pub pd_alloc_kernel_memory :
    AllocAnswer → VmAnswer → KmemHandle → Process → ℕ → PdKmem → Allocated
pd_alloc_kernel_memory k v old p size handle =
    let (status, reply, d, calls) =
      ioctl_kmem_alloc stack k p.device (record old { size = uint size }) in
    let kh = kmem_reply reply (record old { size = uint size }) in
    if failed status then some (none, handle, on p d, calls) else elim (lock (on p d)) [
      | none ↦ none
      | some q ↦
          map_buffer v kh (record handle { handle_id = kh.handle_id; pa = kh.pa; size = uint size })
            (uint size) q calls
    ]

-- `pd_freeKernelMemory`
unfoldable pub pd_free_kernel_memory : Process → PdKmem → ℕ × Process × List Event
pd_free_kernel_memory p handle =
    let (status, reply, d, calls) =
      ioctl_kmem_free stack p.device
        (record { pa = handle.pa; size = handle.size; handle_id = handle.handle_id }) in
    (result status, on p d, act (munmap handle.mem handle.size) ∷ calls)

-- `pd_syncKernelMemory`
unfoldable pub pd_sync_kernel_memory : Process → PdKmem → ℕ → ℕ × Process × List Event
pd_sync_kernel_memory p handle dir =
    let (status, reply, d, calls) = ioctl_kmem_sync stack p.device (record {
      handle = record { pa = handle.pa; size = handle.size; handle_id = handle.handle_id };
      dir = dir;
    }) in
    (if failed status then minus_one else 0, on p d, calls)
