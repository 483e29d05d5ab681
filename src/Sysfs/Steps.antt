-- ===== src/Sysfs/Steps.antt =====
-- What the stores of sysfs.c do to a device, and what they have in common with the ioctls.
use fpga_pcie_drivers.Common.{
  ℕ, ◌≤◌, ◌≡◌, ◌⊎◌, inl, inr, refl, Option, none, some, arith, Option-cases, Bool-cases, leb,
}
use fpga_pcie_drivers.Device.{KmemHandle, KmemEntry, Privdata}
use fpga_pcie_drivers.Kmem.{AllocAnswer, kmem_free_entry, kmem_find_entry_id}
use fpga_pcie_drivers.Kmem.Invariant.{kmem_alloc-IsValid, kmem_free_entry-IsValid}
use fpga_pcie_drivers.Umem.Map.{MapAnswer, umem_find_entry_id}
use fpga_pcie_drivers.Umem.Lifecycle.{umem_sgunmap-IsValid}
use fpga_pcie_drivers.Sysfs.Stores.{
  store_mmap_mode, store_mmap_area, store_kmem_alloc, store_kmem_free, store_umem_unmap, parsed_int,
}
use fpga_pcie_drivers.Ioctl.Invariant.{
  IsDevice, IsFair, SameButKmem, kmem-IsDevice, umem-IsDevice, kmem_alloc-Same, sgunmap-Same,
}
use fpga_pcie_drivers.Ioctl.Safety.{settings-IsDevice}

pub store_mmap_mode-IsDevice :
    (d : Privdata) (parsed : Option ℕ) → IsDevice d → IsDevice (store_mmap_mode d parsed).0
unfolding store_mmap_mode
store_mmap_mode-IsDevice d none v = v
store_mmap_mode-IsDevice d (some mode) v =
    let end : ((store_mmap_mode d (some mode)).0 ≡ d)
        ⊎ ((mode ≤ 1) × ((store_mmap_mode d (some mode)).0 ≡ record d { mmap_mode = mode })) =
      ground arith in
    elim end [
      | inl e ↦ rw e v
      | inr (small, e) ↦ rw e (settings-IsDevice d mode d.mmap_area small v.area v)
    ]

pub store_mmap_area-IsDevice :
    (d : Privdata) (parsed : Option ℕ) → IsDevice d → IsDevice (store_mmap_area d parsed).0
unfolding store_mmap_area
store_mmap_area-IsDevice d parsed v =
    let end : ((store_mmap_area d parsed).0 ≡ d)
        ⊎ ((parsed_int parsed ≤ 5)
            × ((store_mmap_area d parsed).0 ≡ record d { mmap_area = parsed_int parsed })) =
      ground arith in
    elim end [
      | inl e ↦ rw e v
      | inr (small, e) ↦ rw e (settings-IsDevice d d.mmap_mode (parsed_int parsed) v.mode small v)
    ]

pub store_kmem_alloc-IsDevice :
    (k : AllocAnswer) (m : MapAnswer) (d : Privdata) (pa handle_id : ℕ) (parsed : Option ℕ)
    → IsFair k m d
    → IsDevice d
    → IsDevice (store_kmem_alloc k d pa handle_id parsed).0
unfolding store_kmem_alloc
store_kmem_alloc-IsDevice k m d pa handle_id none f v = v
store_kmem_alloc-IsDevice k m d pa handle_id (some size) f v =
    let h : KmemHandle = record { pa = pa; size = size; handle_id = handle_id } in
    kmem-IsDevice d _ (kmem_alloc-Same k d h)
      (kmem_alloc-IsValid k d h f.kmem_room f.alloc v.buffers) v

free_entry-Same : (d : Privdata) (e : KmemEntry) → SameButKmem d (kmem_free_entry d e).1
unfolding kmem_free_entry
free_entry-Same d e = (refl, refl, refl, refl, refl)

pub store_kmem_free-IsDevice :
    (d : Privdata) (parsed : Option ℕ) → IsDevice d → IsDevice (store_kmem_free d parsed).0
unfolding store_kmem_free
store_kmem_free-IsDevice d none v = v
store_kmem_free-IsDevice d (some id) v = elim (Bool-cases (leb d.kmem_count id)) [
  | inl far ↦ rw far v
  | inr near ↦ elim (Option-cases (kmem_find_entry_id d id)) [
    | inl e ↦ rw (near, e) v
    | inr (x, e) ↦
        rw (near, e)
          (kmem-IsDevice d _ (free_entry-Same d x) (kmem_free_entry-IsValid d x v.buffers) v)
  ]
]

pub store_umem_unmap-IsDevice :
    (d : Privdata) (parsed : Option ℕ) → IsDevice d → IsDevice (store_umem_unmap d parsed).0
unfolding store_umem_unmap
store_umem_unmap-IsDevice d none v = v
store_umem_unmap-IsDevice d (some id) v = elim (Bool-cases (leb d.umem_count id)) [
  | inl far ↦ rw far v
  | inr near ↦ elim (Option-cases (umem_find_entry_id d id)) [
    | inl e ↦ rw (near, e) v
    | inr (x, e) ↦
        rw (near, e) (umem-IsDevice d _ (sgunmap-Same d x) (umem_sgunmap-IsValid d x v.mappings) v)
  ]
]
