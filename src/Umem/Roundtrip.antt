-- ===== src/Umem/Roundtrip.antt =====
-- `pcidriver_umem_sgunmap` after `pcidriver_umem_sgmap`, and the unmapping of all entries.
use fpga_pcie_drivers.Common.{
  ℕ, ◌+◌, ◌^◌, ◌<◌, ◌≡◌, refl, Bool, List, [], ◌∷◌, ◌++◌, arith, count, some, All-map, IsFresh,
  find_by-snoc_self, remove_by-snoc_self, remove_by,
}
use mathlib.Core.List.{flat_map}
use fpga_pcie_drivers.Kernel.{
  traces, ok, Event, Resource, acquired, released, acquire, block, sysfs_file, umem,
}
use fpga_pcie_drivers.Device.{UmemHandle, UmemEntry, Privdata}
use fpga_pcie_drivers.Umem.Pages.{nr_pages_of}
use fpga_pcie_drivers.Umem.Map.{
  MapAnswer, umem_sgmap, umem_sgunmap, sgmap_entry, umem_find_entry_id, unmap_each,
  umem_sgunmap_all,
}
use fpga_pcie_drivers.Umem.Pinned.{
  IsLocked, IsPinning, pinned-IsLocked, released-pin, released-lock, unpin-lock,
}
use fpga_pcie_drivers.Umem.Balance.{calls_so_far}
use fpga_pcie_drivers.Umem.Lifecycle.{IsValid, umem_sgmap-Reached, sgmap_entry-Added, new_entry}

unmap_given :
    (t : Resource → Bool) (k : MapAnswer) (d d' : Privdata) (h : UmemHandle) (pages_ptr sg_ptr : ℕ)
    (out : List Event)
    → IsLocked (nr_pages_of h.vma h.size) k
    → out
      ≡ calls_so_far pages_ptr sg_ptr (nr_pages_of h.vma h.size) k
        ++ acquire (block (new_entry pages_ptr sg_ptr k d h).addr)
          ∷ acquire (block (new_entry pages_ptr sg_ptr k d h).name)
          ∷ acquire (sysfs_file (umem d.umem_count))
          ∷ []
    → count t (released (umem_sgunmap d' (new_entry pages_ptr sg_ptr k d h)).2)
        + count t (released out)
      ≡ count t (acquired out)
unfolding umem_sgunmap
unmap_given t k d d' h pages_ptr sg_ptr out l took =
    rw (took, l.visits, l.undoes)
      (simp (traces, released-pin, released-lock) (omega (arith, unpin-lock t k.pinned)))

-- The range is shorter than 2^42 bytes; get_user_pages returns the number of pages that it has pinned, or a
-- negative number if none; the entry's memory is not that of another entry; and the list is well formed: all
-- ids in it are below the counter, as they are until it wraps around. Then a mapping that has succeeded
-- is found by the id in the handle. Unmapping it returns 0, leaves the list as it was before the mapping,
-- and gives back all that the mapping took and had not yet given back.
pub umem_sgunmap-umem_sgmap :
    (k : MapAnswer) (d : Privdata) (h : UmemHandle) (t : Resource → Bool)
    → h.size < 2 ^ 42
    → IsPinning k h
    → ((p : ℕ) → k.entry ≡ some p → IsFresh (λ x. x.addr) p d.umem_list)
    → IsValid d
    → (umem_sgmap k d h).0 ≡ ok
    → (e : UmemEntry) × (umem_find_entry_id (umem_sgmap k d h).2 (umem_sgmap k d h).1.handle_id
        ≡ some e)
      × ((umem_sgunmap (umem_sgmap k d h).2 e).0 ≡ ok)
      × ((umem_sgunmap (umem_sgmap k d h).2 e).1.umem_list ≡ d.umem_list)
      × (count t (released (umem_sgunmap (umem_sgmap k d h).2 e).2)
            + count t (released (umem_sgmap k d h).3)
          ≡ count t (acquired (umem_sgmap k d h).3))
umem_sgunmap-umem_sgmap k d h t small v fresh valid done =
    let r = umem_sgmap-Reached k d h done in
    let e = new_entry r.pages_ptr r.sg_ptr k d h in
    let good : (sgmap_entry r.pages_ptr r.sg_ptr (nr_pages_of h.vma h.size)
          (calls_so_far r.pages_ptr r.sg_ptr (nr_pages_of h.vma h.size) k) k d h).0
        ≡ ok =
      rw r.stage at done in
    let a = sgmap_entry-Added r.pages_ptr r.sg_ptr _ k d h good in
    rw r.stage (
      e,
      unfold umem_find_entry_id in
          rw (a.list, a.handle)
            (find_by-snoc_self _ d.umem_list e
              (All-map _ _ d.umem_list (λ x b. omega arith) valid.below)),
      unfold umem_sgunmap in refl,
      unfold umem_sgunmap in rw a.list (remove_by-snoc_self _ d.umem_list e (fresh e.addr a.entry)),
      unmap_given t k d _ h r.pages_ptr r.sg_ptr _ (pinned-IsLocked k h v r.positive small) a.took,
    )

head_cut : (e : UmemEntry) (es : List UmemEntry) → remove_by (λ x. x.addr) e.addr (e ∷ es) ≡ es
unfolding remove_by
head_cut e es = ground arith

cut_head :
    (d : Privdata) (e : UmemEntry) (es : List UmemEntry)
    → d.umem_list ≡ e ∷ es
    → (umem_sgunmap d e).1.umem_list ≡ es
unfolding umem_sgunmap
cut_head d e es h = rw h (head_cut e es)

-- The calls of unmapping are a matter of the entry alone.
sgunmap_calls_same :
    (d d' : Privdata) (e : UmemEntry) → (umem_sgunmap d e).2 ≡ (umem_sgunmap d' e).2
unfolding umem_sgunmap
sgunmap_calls_same d d' e = refl

unmap_each-all :
    (es : List UmemEntry) (d start : Privdata)
    → d.umem_list ≡ es
    → ((unmap_each d es).0.umem_list ≡ [])
      × ((unmap_each d es).1 ≡ flat_map (λ e. (umem_sgunmap start e).2) es)
unfolding unmap_each flat_map
unmap_each-all [] d start h = (h, refl)
unmap_each-all (e ∷ es) d start h =
    let rest = unmap_each-all es (umem_sgunmap d e).1 start (cut_head d e es h) in
    (rest.0, rw (rest.1, sgunmap_calls_same d start e))

-- `pcidriver_umem_sgunmap_all` empties the list, and its calls are those of unmapping every entry, in
-- the order of the list.
pub umem_sgunmap_all_lem :
    (d : Privdata)
    → ((umem_sgunmap_all d).0 ≡ ok)
      × ((umem_sgunmap_all d).1.umem_list ≡ [])
      × ((umem_sgunmap_all d).2 ≡ flat_map (λ e. (umem_sgunmap d e).2) d.umem_list)
unfolding umem_sgunmap_all
umem_sgunmap_all_lem d = let h = unmap_each-all d.umem_list d d refl in (refl, h.0, h.1)
