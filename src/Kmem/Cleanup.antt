-- ===== src/Kmem/Cleanup.antt =====
-- What kmem.c gives back, and what its error paths keep; the checks of sync and mmap.
use fpga_pcie_drivers.Common.{
  ℕ, ◌≤◌, ◌≡◌, refl, ap, some, List, [], ◌∷◌, ◌++◌, arith, is_empty, true, remove_by, if◌then◌else◌,
  take, is_some, get_last?, ◌&&◌, ltb,
}
use fpga_pcie_drivers.Kernel.{
  ok, err, einval, enomem, failed, kbuf, act, block, sysfs_file, dma_buffer, Resource, acquired,
  released, remap_cpua_range,
}
use fpga_pcie_drivers.Device.{KmemHandle, KmemSync, KmemEntry, Privdata, page_size}
use fpga_pcie_drivers.Kmem.{
  AllocAnswer, kmem_alloc, kmem_find_entry, kmem_free_entry, free_each, kmem_free_all, kmem_sync,
  mmap_kmem_buffer,
}

-- What the entries of a list hold, in the order in which freeing gives it back.
abbrev holdings_of : KmemEntry → List Resource
holdings_of e =
    sysfs_file (kbuf e.id)
    ∷ block e.name
    ∷ dma_buffer e.size e.cpua e.dma_handle
    ∷ block e.addr
    ∷ []

abbrev pub holdings : List KmemEntry → List Resource
holdings [] = []
holdings (e ∷ es) = holdings_of e ++ holdings es

head_cut : (e : KmemEntry) (es : List KmemEntry) → remove_by (λ x. x.addr) e.addr (e ∷ es) ≡ es
unfolding remove_by
head_cut e es = ground arith

free_each-all :
    (es : List KmemEntry) (d : Privdata)
    → d.kmem_list ≡ es
    → ((free_each d es).0.kmem_list ≡ [])
      × (released (free_each d es).1 ≡ holdings es)
      × (acquired (free_each d es).1 ≡ [])
unfolding free_each kmem_free_entry
free_each-all [] d h = (h, refl, refl)
free_each-all (e ∷ es) d h =
    let cut : remove_by (λ x. x.addr) e.addr d.kmem_list ≡ es = rw h (head_cut e es) in
    let rest =
      free_each-all es (record d { kmem_list = remove_by (λ x. x.addr) e.addr d.kmem_list }) cut in
    (rest.0, ap (λ rs. holdings_of e ++ rs) rest.1, rest.2)

-- `pcidriver_kmem_free_all` empties the list, takes nothing, and gives back what every entry holds:
-- its attribute, the attribute's name, the buffer with the arguments of its allocation, and the
-- entry itself.
pub kmem_free_all_lem :
    (d : Privdata)
    → ((kmem_free_all d).0 ≡ ok)
      × ((kmem_free_all d).1.kmem_list ≡ [])
      × (released (kmem_free_all d).2 ≡ holdings d.kmem_list)
      × (acquired (kmem_free_all d).2 ≡ [])
unfolding kmem_free_all
kmem_free_all_lem d = let h = free_each-all d.kmem_list d refl in (refl, h.0, h.1, h.2)

-- A failed `pcidriver_kmem_alloc` returns -ENOMEM, leaves the list of buffers as it was, and gives
-- back only the entry: of what it has taken, the first.
pub kmem_alloc-failed :
    (k : AllocAnswer) (d : Privdata) (h : KmemHandle)
    → failed (kmem_alloc k d h).0 ≡ true
    → ((kmem_alloc k d h).0 ≡ err enomem)
      × ((kmem_alloc k d h).2.kmem_list ≡ d.kmem_list)
      × (released (kmem_alloc k d h).3 ≡ take 1 (acquired (kmem_alloc k d h).3))
unfolding kmem_alloc
kmem_alloc-failed k d h f = ground arith

-- A call of `pcidriver_kmem_alloc` that fails after the attribute's name was copied has taken the entry,
-- the name, and the attribute's file if that was created; and of these it gives back the entry alone.
pub kmem_alloc_leaks :
    (k : AllocAnswer) (d : Privdata) (h : KmemHandle) (p q : ℕ)
    → failed (kmem_alloc k d h).0 ≡ true
    → k.entry ≡ some p
    → k.attr.name ≡ some q
    → (acquired (kmem_alloc k d h).3
        ≡ block p ∷ block q ∷ (if k.attr.created then sysfs_file (kbuf d.kmem_count) ∷ [] else []))
      × (released (kmem_alloc k d h).3 ≡ block p ∷ [])
unfolding kmem_alloc
kmem_alloc_leaks k d h p q f e n = ground arith

-- `pcidriver_kmem_sync` returns 0 exactly for a known bus address and one of the three directions,
-- and -EINVAL otherwise. The kernel is called exactly if it returns 0.
pub kmem_sync_lem :
    (d : Privdata) (s : KmemSync)
    → ((kmem_sync d s).0
        ≡ (if is_some (kmem_find_entry d s.handle) && ltb s.dir 3 then ok else err einval))
      × (is_empty (kmem_sync d s).1 ≡ failed (kmem_sync d s).0)
unfolding kmem_sync
kmem_sync_lem d s = ground arith

-- Mapping a buffer of a page or more: the size of the user's range is not checked, and the whole
-- buffer is mapped at the range's start.
pub mmap_kmem_buffer_unchecked :
    (d : Privdata) (e : KmemEntry) (vm_start vm_end : ℕ)
    → get_last? d.kmem_list ≡ some e
    → page_size ≤ e.size
    → mmap_kmem_buffer true d vm_start vm_end
      ≡ (ok, act (remap_cpua_range vm_start e.cpua e.size) ∷ [])
unfolding mmap_kmem_buffer
mmap_kmem_buffer_unchecked d e vm_start vm_end last large = ground arith
