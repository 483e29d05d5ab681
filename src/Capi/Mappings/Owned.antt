-- ===== src/Capi/Mappings/Owned.antt =====
-- Mappings that a process has got by `pd_mapUserMemory` of pciDriver_Capi.c.
use fpga_pcie_drivers.Common.{
  ℕ, ◌+◌, ◌/◌, ◌≤◌, ◌<◌, ◌≡◌, ◌⊎◌, ◌∙◌, refl, inl, inr, true, some, List, arith, ltb, Bool-cases,
  IsFresh, if◌then◌else◌,
}
use mathlib.Core.Path.{subst}
use fpga_pcie_drivers.Kernel.{Status, ok, err, einval, failed, status-cases, Event}
use fpga_pcie_drivers.Device.{UmemHandle, UmemEntry, UmemSglist, Privdata, uint, page_size}
use fpga_pcie_drivers.Umem.Map.{MapAnswer, umem_sgmap, umem_sgunmap, umem_find_entry_id}
use fpga_pcie_drivers.Umem.Sglist.{umem_sgget}
use fpga_pcie_drivers.Umem.Pinned.{IsPinning}
use fpga_pcie_drivers.Umem.Lifecycle.{IsValid, umem_sgmap-undone}
use fpga_pcie_drivers.Umem.Roundtrip.{umem_sgunmap-umem_sgmap}
use fpga_pcie_drivers.Ioctl.Config.{silent, umem_handle}
use fpga_pcie_drivers.Ioctl.Calls.{
  ArrayAnswer, ioctl_umem_sgmap, ioctl_umem_sgunmap, ioctl_umem_sgget, sgget_array,
}
use fpga_pcie_drivers.Capi.Process.{Process, stack, minus_one, on}
use fpga_pcie_drivers.Capi.Mappings.{
  PdUmem, PdMapAnswer, MappedUser, pd_map_user_memory, pd_unmap_user_memory, get_list, wanted,
}

pub map_called :
    (k : MapAnswer) (d : Privdata) (h : UmemHandle)
    → (umem_sgmap k d h).0 ≡ ok
    → ioctl_umem_sgmap stack k d h
      ≡ (ok, umem_handle (umem_sgmap k d h).1, (umem_sgmap k d h).2, (umem_sgmap k d h).3)
unfolding ioctl_umem_sgmap
map_called k d h good = ground arith

map_refused :
    (k : MapAnswer) (d : Privdata) (h : UmemHandle)
    → failed (umem_sgmap k d h).0 ≡ true
    → ioctl_umem_sgmap stack k d h
      ≡ ((umem_sgmap k d h).0, silent, (umem_sgmap k d h).2, (umem_sgmap k d h).3)
unfolding ioctl_umem_sgmap
map_refused k d h bad = ground arith

unmap_called :
    (d : Privdata) (h : UmemHandle) (e : UmemEntry)
    → umem_find_entry_id d h.handle_id ≡ some e
    → ioctl_umem_sgunmap stack d h
      ≡ ((umem_sgunmap d e).0, silent, (umem_sgunmap d e).1, (umem_sgunmap d e).2)
unfolding ioctl_umem_sgunmap
unmap_called d h e found = rw (ioctl_umem_sgunmap, found) refl

get-same : (k : ArrayAnswer) (d : Privdata) (l : UmemSglist) → (ioctl_umem_sgget stack k d l).2 ≡ d
unfolding ioctl_umem_sgget sgget_array
get-same k d l = ground arith

-- The mapping is in the list and can be unmapped.
module _ (k : PdMapAnswer) (p : Process) (mem size : ℕ) (handle : PdUmem) where
  abbrev asked : UmemHandle
  asked = record k.junk { vma = mem; size = uint size }

  abbrev made : Status × UmemHandle × Privdata × List Event
  made = umem_sgmap k.map p.device asked

  -- the handle after the first ioctl
  abbrev begun : PdUmem
  begun = record handle { handle_id = made.1.handle_id }

  -- What holds of a mapping: it is undone if it fails, and can be unmapped if not.
  abbrev Outcome : MappedUser → Type 0
  Outcome (ret, h, q, calls) =
      ((ret ≡ minus_one) × (q.device.umem_list ≡ p.device.umem_list))
      ⊎ ((ret ≡ 0)
          × ((pd_unmap_user_memory q 0 h).0 ≡ 0)
          × ((pd_unmap_user_memory q 0 h).1.device.umem_list ≡ p.device.umem_list))

  refused :
      failed made.0 ≡ true
      → pd_map_user_memory k p mem size handle ≡ (minus_one, handle, on p made.2, made.3)
  unfolding pd_map_user_memory
  refused bad = simp (map_refused k.map p.device asked bad, bad) refl

  goes_on :
      made.0 ≡ ok
      → pd_map_user_memory k p mem size handle
        ≡ get_list k (uint size) made.1 begun (on p made.2) made.3
  unfolding pd_map_user_memory
  goes_on good = simp (map_called k.map p.device asked good) refl

  got_Outcome :
      (e : UmemEntry)
      → umem_find_entry_id made.2 made.1.handle_id ≡ some e
      → (umem_sgunmap made.2 e).0 ≡ ok
      → (umem_sgunmap made.2 e).1.umem_list ≡ p.device.umem_list
      → Outcome (get_list k (uint size) made.1 begun (on p made.2) made.3)
  unfolding get_list pd_unmap_user_memory
  got_Outcome e found good same =
      let l = wanted k made.1.handle_id (uint size) in
      let kept = get-same k.area made.2 l in
      elim (Bool-cases (failed (ioctl_umem_sgget stack k.area made.2 l).0)) [
        | inl bad ↦ simp (bad, kept, unmap_called made.2 made.1 e found) (inl (refl, same))
        | inr fine ↦
            let last =
              unmap_called made.2
                (record {
                  vma = handle.vma;
                  size = handle.size;
                  handle_id = made.1.handle_id;
                  dir = 0;
                })
                e found in
            simp (fine, kept, last, good) (inr (refl, refl, same))
      ]

  outcome :
      IsPinning k.map asked
      → ((a : ℕ) → k.map.entry ≡ some a → IsFresh (λ x. x.addr) a p.device.umem_list)
      → IsValid p.device
      → Outcome (pd_map_user_memory k p mem size handle)
  outcome pins fresh valid = elim (status-cases made.0) [
    | inr bad ↦ rw (refused bad) (inl (refl, umem_sgmap-undone k.map p.device asked bad))
    | inl good ↦
        let (e, found, ended, same, balance) =
          umem_sgunmap-umem_sgmap k.map p.device asked (λ r. true) (omega arith) pins fresh valid
            good in
        rw (goes_on good) (got_Outcome e found ended same)
  ]

  -- get_user_pages returns how many pages it has pinned, and what the kernel hands out is not in use; the
  -- list of mappings is well formed. `pd_mapUserMemory`
  -- returns -1 and leaves the driver's list of mappings as it was, also if only its second ioctl fails;
  -- or it returns 0, and then `pd_unmapUserMemory` of the handle returns 0 and brings the list back.
  pub pd_unmap_user_memory-pd_map_user_memory :
      (ret : ℕ) (h : PdUmem) (q : Process) (calls : List Event)
      → IsPinning k.map (record k.junk { vma = mem; size = uint size })
      → ((a : ℕ) → k.map.entry ≡ some a → IsFresh (λ x. x.addr) a p.device.umem_list)
      → IsValid p.device
      → pd_map_user_memory k p mem size handle ≡ (ret, h, q, calls)
      → ((ret ≡ minus_one) × (q.device.umem_list ≡ p.device.umem_list))
        ⊎ ((ret ≡ 0)
            × ((pd_unmap_user_memory q 0 h).0 ≡ 0)
            × ((pd_unmap_user_memory q 0 h).1.device.umem_list ≡ p.device.umem_list))
  pd_unmap_user_memory-pd_map_user_memory ret h q calls pins fresh valid e =
      subst Outcome e (outcome pins fresh valid)

  sgget_status :
      (d : Privdata) (l : UmemSglist) (e : UmemEntry)
      → umem_find_entry_id d l.handle_id ≡ some e
      → (umem_sgget d l).0 ≡ (if ltb l.nents e.nents then err einval else ok)
  unfolding umem_sgget
  sgget_status d l e found = ground arith

  -- The driver maps the memory, to an entry `e` of its list, and the array is copied without faults.
  -- Then `pd_mapUserMemory` returns 0 if the mapping has at most one bus entry for every 4096 bytes and
  -- one more, and -1 if it has more than that.
  pub pd_map_user_memory-nents :
      (e : UmemEntry) (area : ℕ)
      → (umem_sgmap k.map p.device (record k.junk { vma = mem; size = uint size })).0 ≡ ok
      → umem_find_entry_id made.2 made.1.handle_id ≡ some e
      → k.area ≡ record { area = some area; copied_in = true; copied_out = true }
      → ((e.nents ≤ uint size / page_size + 1) × ((pd_map_user_memory k p mem size handle).0 ≡ 0))
        ⊎ ((uint size / page_size + 1 < e.nents)
            × ((pd_map_user_memory k p mem size handle).0 ≡ minus_one))
  unfolding get_list ioctl_umem_sgget sgget_array
  pd_map_user_memory-nents e area good found faultless =
      let l = wanted k made.1.handle_id (uint size) in
      let status = sgget_status made.2 l e found in
      rw (goes_on good) (elim (Bool-cases (ltb l.nents e.nents)) [
        | inl short ↦
            let bad : (umem_sgget made.2 l).0 ≡ err einval = status ∙ rw short refl in
            inr (ground arith, simp (faultless, bad) refl)
        | inr enough ↦
            let fine : (umem_sgget made.2 l).0 ≡ ok = status ∙ rw enough refl in
            inl (ground arith, simp (faultless, fine) refl)
      ])
