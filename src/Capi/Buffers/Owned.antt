-- ===== src/Capi/Buffers/Owned.antt =====
-- Buffers that a process has got by `pd_allocKernelMemory` of pciDriver_Capi.c.
use fpga_pcie_drivers.Common.{
  ℕ, ◌≡◌, ◌∙◌, refl, sym, true, false, none, some, List, [], ◌∷◌, ◌++◌, arith, get_last?,
}
use mathlib.Core.List.{Perm, append-nil}
use mathlib.Core.Path.{subst}
use fpga_pcie_drivers.Kernel.{ok, Event, acquired, released, acquired-append, act, remap_cpua_range}
use fpga_pcie_drivers.Device.{KmemHandle, KmemEntry, uint}
use fpga_pcie_drivers.Kmem.{AllocAnswer, kmem_alloc}
use fpga_pcie_drivers.Kmem.Invariant.{IsFreshAnswer}
use fpga_pcie_drivers.Kmem.Cleanup.{kmem_alloc-failed}
use fpga_pcie_drivers.Kmem.Lookup.{kmem_free-kmem_alloc, kmem_alloc-Allocated, new_entry}
use fpga_pcie_drivers.Capi.Process.{Process, VmAnswer}
use fpga_pcie_drivers.Capi.Buffers.{
  PdKmem, pd_alloc_kernel_memory, pd_free_kernel_memory, Allocated,
}
use fpga_pcie_drivers.Capi.Buffers.Mapped.{mapped, get_last-snoc}
use fpga_pcie_drivers.Capi.Buffers.Endings.{
  asked, made, ready, got, refused, waits, maps, map_fails, map_works, frees, no_buffer, no_lock,
  no_range, owned, ending,
}

-- What holds of an allocation that has returned.
abbrev Freeable : Process → Process → PdKmem → List Event → Type 0
Freeable p q h calls =
    ((pd_free_kernel_memory q h).0 ≡ 0)
    × ((pd_free_kernel_memory q h).1.device.kmem_list ≡ p.device.kmem_list)
    × ((pd_free_kernel_memory q h).1.locked ≡ false)
    × Perm (released (pd_free_kernel_memory q h).2) (acquired calls)

abbrev Undone : Process → Process → Type 0
Undone p q = (q.device.kmem_list ≡ p.device.kmem_list) × (q.locked ≡ p.locked)

abbrev Outcome : Process → Allocated → Type 0
Outcome p none = Unit
Outcome p (some (none, h, q, calls)) = Undone p q
Outcome p (some (some mem, h, q, calls)) = Freeable p q h calls

outcome :
    (k : AllocAnswer) (v : VmAnswer) (old : KmemHandle) (p : Process) (size : ℕ) (handle : PdKmem)
    → IsFreshAnswer k p.device
    → Outcome p (pd_alloc_kernel_memory k v old p size handle)
outcome k v old p size handle fresh = elim (ending k v old p size handle) [
  | no_buffer bad ↦
      rw (refused k v old p size handle bad)
        ((kmem_alloc-failed k p.device (asked k v old p size handle) bad).1, refl)
  | no_lock good taken ↦ rw (waits k v old p size handle good taken) tt
  | no_range good free mapping e ↦
      let back = kmem_free-kmem_alloc k p.device (asked k v old p size handle) fresh good in
      rw (maps k v old p size handle good free, map_fails k v old p size handle mapping e)
        (back.1, sym free)
  | owned good free mem starts works e ↦
      let (good_free, same, perm) =
        kmem_free-kmem_alloc k p.device (asked k v old p size handle) fresh good in
      let bare : acquired (
            act (
              remap_cpua_range mem (new_entry k p.device (asked k v old p size handle)).cpua
                (uint size))
            ∷ [])
          ≡ [] =
        refl in
      rw
        (
          maps k v old p size handle good free,
          map_works k v old p size handle mem _ e,
          frees k v old p size handle mem,
          good_free,
          same,
          acquired-append,
          append-nil,
        )
        (refl, refl, refl, perm)
]

module _ (k : AllocAnswer) (v : VmAnswer) (old : KmemHandle) (p : Process) (size : ℕ)
    (handle : PdKmem) where
  -- Memory that the kernel hands out is not in use. A buffer that a process has got from
  -- `pd_allocKernelMemory` it can free: `pd_freeKernelMemory` returns 0, the driver's list is as it
  -- was before the allocation, what was taken from the kernel is given back, and the mutex is free.
  pub pd_free_kernel_memory-pd_alloc_kernel_memory :
      (mem : ℕ) (h : PdKmem) (q : Process) (calls : List Event)
      → IsFreshAnswer k p.device
      → pd_alloc_kernel_memory k v old p size handle ≡ some (some mem, h, q, calls)
      → ((pd_free_kernel_memory q h).0 ≡ 0)
        × ((pd_free_kernel_memory q h).1.device.kmem_list ≡ p.device.kmem_list)
        × ((pd_free_kernel_memory q h).1.locked ≡ false)
        × Perm (released (pd_free_kernel_memory q h).2) (acquired calls)
  pd_free_kernel_memory-pd_alloc_kernel_memory mem h q calls fresh e =
      subst (Outcome p) e (outcome k v old p size handle fresh)

  -- Memory that the kernel hands out is not in use. If `pd_allocKernelMemory` returns NULL, wherever
  -- it has failed, the driver's list of buffers is as it was, and so is the mutex.
  pub pd_alloc_kernel_memory-undone :
      (h : PdKmem) (q : Process) (calls : List Event)
      → IsFreshAnswer k p.device
      → pd_alloc_kernel_memory k v old p size handle ≡ some (none, h, q, calls)
      → (q.device.kmem_list ≡ p.device.kmem_list) × (q.locked ≡ p.locked)
  pd_alloc_kernel_memory-undone h q calls fresh e =
      subst (Outcome p) e (outcome k v old p size handle fresh)

  -- If the driver makes a buffer, the mutex is free, the kernel has a range at `mem` and the remapping
  -- works, `pd_allocKernelMemory` returns `mem`, for every size: and the range is mapped to the very
  -- buffer whose bus address and id the handle gets, in its whole length.
  pub pd_alloc_kernel_memory-mmap :
      (mem : ℕ)
      → (kmem_alloc k p.device (record old { size = uint size })).0 ≡ ok
      → p.locked ≡ false
      → v.start ≡ some mem
      → v.remapped ≡ true
      → (e : KmemEntry) × (h : PdKmem) × (q : Process) × (calls : List Event)
        × (pd_alloc_kernel_memory k v old p size handle
            ≡ some (some mem, h, q, calls ++ act (remap_cpua_range mem e.cpua e.size) ∷ []))
        × (get_last? q.device.kmem_list ≡ some e)
        × (h.pa ≡ e.dma_handle)
        × (h.handle_id ≡ e.id)
        × (e.size ≡ uint size)
        × (q.locked ≡ false)
  pd_alloc_kernel_memory-mmap mem good free starts works =
      let a = kmem_alloc-Allocated k p.device (asked k v old p size handle) good in
      let e = new_entry k p.device (asked k v old p size handle) in
      let d = ready k v old p size handle in
      let call =
        mapped v d mem p.device.kmem_list e starts refl a.list (omega arith) ∙ rw works refl in
      (
        e,
        record (got k v old p size handle) { mem = mem },
        record { device = d; locked = false },
        (made k v old p size handle).3,
        maps k v old p size handle good free ∙ map_works k v old p size handle mem _ call,
        rw a.list (get_last-snoc p.device.kmem_list e),
        a.handle_pa,
        a.handle_id,
        refl,
        refl,
      )
