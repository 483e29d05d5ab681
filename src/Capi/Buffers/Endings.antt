-- ===== src/Capi/Buffers/Endings.antt =====
-- How `pd_allocKernelMemory` of pciDriver_Capi.c ends, and the calls of a free after it.
use fpga_pcie_drivers.Common.{
  ℕ, ◌≡◌, ◌∙◌, refl, inl, inr, true, false, none, some, List, [], ◌∷◌, ◌++◌, arith, Bool-cases,
  Option-cases,
}
use mathlib.Core.List.{append-nil}
use fpga_pcie_drivers.Kernel.{
  Status, ok, failed, status-cases, Event, act, remap_cpua_range, munmap,
}
use fpga_pcie_drivers.Device.{KmemHandle, Privdata, uint, mmap_kmem}
use fpga_pcie_drivers.Kmem.{AllocAnswer, kmem_alloc, kmem_free}
use fpga_pcie_drivers.Kmem.Lookup.{kmem_alloc-Allocated, new_entry}
use fpga_pcie_drivers.Capi.Process.{Process, VmAnswer, result, on, mmap_device}
use fpga_pcie_drivers.Capi.Buffers.{
  PdKmem, pd_alloc_kernel_memory, pd_free_kernel_memory, map_buffer,
}
use fpga_pcie_drivers.Capi.Buffers.Mapped.{
  alloc_called, alloc_refused, free_called, free_moded, free_by_address, mode_called, mapped,
  unmapped,
}

module _ (k : AllocAnswer) (v : VmAnswer) (old : KmemHandle) (p : Process) (size : ℕ)
    (handle : PdKmem) where
  -- the handle as it is given to the driver, and what the driver makes of it
  abbrev pub asked : KmemHandle
  asked = record old { size = uint size }

  abbrev pub made : Status × KmemHandle × Privdata × List Event
  made = kmem_alloc k p.device asked

  -- the device with the buffer, in the mode to map it
  abbrev pub ready : Privdata
  ready = record made.2 { mmap_mode = mmap_kmem }

  -- the handle that the process gets
  abbrev pub got : PdKmem
  got = record handle { handle_id = made.1.handle_id; pa = made.1.pa; size = uint size }

  pub refused :
      failed made.0 ≡ true
      → pd_alloc_kernel_memory k v old p size handle ≡ some (none, handle, on p made.2, made.3)
  unfolding pd_alloc_kernel_memory
  refused bad = let called = alloc_refused k p.device asked bad in ground arith

  pub waits : made.0 ≡ ok → p.locked ≡ true → pd_alloc_kernel_memory k v old p size handle ≡ none
  unfolding pd_alloc_kernel_memory
  waits good taken = let called = alloc_called k p.device asked good in ground arith

  pub maps :
      made.0 ≡ ok
      → p.locked ≡ false
      → pd_alloc_kernel_memory k v old p size handle
        ≡ map_buffer v made.1 got (uint size) (record { device = made.2; locked = true }) made.3
  unfolding pd_alloc_kernel_memory
  maps good free = let called = alloc_called k p.device asked good in simp (called, free) refl

  pub map_fails :
      (mapping : List Event)
      → mmap_device v ready (uint size) ≡ (none, mapping)
      → map_buffer v made.1 got (uint size) (record { device = made.2; locked = true }) made.3
        ≡ some (
          none,
          got,
          record {
            device = record (kmem_free made.2 made.1).1 { mmap_mode = mmap_kmem };
            locked = false;
          },
          made.3 ++ mapping ++ (kmem_free made.2 made.1).2,
        )
  unfolding map_buffer
  map_fails mapping e =
      simp
        (
          mode_called made.2,
          e,
          free_called ready made.1,
          free_moded made.2 mmap_kmem made.1,
          append-nil,
        )
        refl

  pub map_works :
      (mem : ℕ) (mapping : List Event)
      → mmap_device v ready (uint size) ≡ (some mem, mapping)
      → map_buffer v made.1 got (uint size) (record { device = made.2; locked = true }) made.3
        ≡ some (
          some mem,
          record got { mem = mem },
          record { device = ready; locked = false },
          made.3 ++ mapping,
        )
  unfolding map_buffer
  map_works mem mapping e = simp (mode_called made.2, e, append-nil) refl

  pub frees :
      (mem : ℕ)
      → pd_free_kernel_memory (record { device = ready; locked = false }) (record got { mem = mem })
        ≡ (
          result (kmem_free made.2 made.1).0,
          record {
            device = record (kmem_free made.2 made.1).1 { mmap_mode = mmap_kmem };
            locked = false;
          },
          act (munmap mem (uint size)) ∷ (kmem_free made.2 made.1).2,
        )
  unfolding pd_free_kernel_memory
  frees mem =
      simp
        (
          free_called ready
              (record { pa = made.1.pa; size = uint size; handle_id = made.1.handle_id }),
          free_by_address ready made.1 (uint size) made.1.handle_id,
          free_moded made.2 mmap_kmem made.1,
        )
        refl

  -- How an allocation ends.
  pub data Ending : Type 0 where
    no_buffer : failed made.0 ≡ true → Ending
    no_lock : made.0 ≡ ok → p.locked ≡ true → Ending
    no_range :
        made.0 ≡ ok
        → p.locked ≡ false
        → (mapping : List Event) → mmap_device v ready (uint size) ≡ (none, mapping)
        → Ending
    owned :
        made.0 ≡ ok
        → p.locked ≡ false
        → (mem : ℕ) → v.start ≡ some mem
        → v.remapped ≡ true
        → mmap_device v ready (uint size) ≡ (
          some mem,
          act (remap_cpua_range mem (new_entry k p.device asked).cpua (uint size)) ∷ [],
        )
        → Ending

  pub ending : Ending
  ending = elim (status-cases made.0) [
    | inr bad ↦ no_buffer bad
    | inl good ↦ elim (Bool-cases p.locked) [
      | inl taken ↦ no_lock good taken
      | inr free ↦ elim (Option-cases v.start) [
        | inl e ↦ no_range good free [] (unmapped v ready (uint size) e)
        | inr (mem, e) ↦
            let a = kmem_alloc-Allocated k p.device asked good in
            let call =
              mapped v ready mem p.device.kmem_list (new_entry k p.device asked) e refl a.list
                (omega arith) in
            elim (Bool-cases v.remapped) [
              | inl works ↦ owned good free mem e works (call ∙ rw works refl)
              | inr fails ↦
                  no_range good free
                    (act (remap_cpua_range mem (new_entry k p.device asked).cpua (uint size)) ∷ [])
                    (call ∙ rw fails refl)
            ]
      ]
    ]
  ]
