-- ===== src/Ioctl/Invariant.antt =====
-- What holds of a device between two ioctls.
use fpga_pcie_drivers.Common.{
  ℕ, ◌+◌, ◌^◌, ◌<◌, ◌≤◌, ◌≡◌, ◌⊎◌, refl, some, List, inl, inr, arith, Bool-cases, Option-cases,
  IsFresh, length,
}
use fpga_pcie_drivers.Device.{KmemHandle, UmemHandle, UmemEntry, Privdata, int_maxsources}
use fpga_pcie_drivers.Kmem.{kmem_alloc, kmem_free, AllocAnswer}
use fpga_pcie_drivers.Kmem.Invariant.{IsFreshAnswer, kmem_alloc-IsValid, kmem_free-IsValid}
use fpga_pcie_drivers.Kmem
use fpga_pcie_drivers.Umem.Map.{
  MapAnswer, umem_sgmap, sgmap_entry, umem_sgunmap, umem_find_entry_id,
}
use fpga_pcie_drivers.Umem.Lifecycle.{umem_sgmap-cases, umem_sgmap-IsValid, umem_sgunmap-IsValid}
use fpga_pcie_drivers.Umem
use fpga_pcie_drivers.Ioctl.Config.{User}
use fpga_pcie_drivers.Ioctl.Calls.{
  ioctl_kmem_alloc, ioctl_kmem_free, ioctl_umem_sgmap, ioctl_umem_sgunmap,
}

-- Both lists are as their components keep them, mmap is set to a mode and a BAR that exist, and
-- there is a counter for every channel.
pub record IsDevice (d : Privdata) : Type 0 where
  pub buffers : Kmem.Invariant.IsValid d
  pub mappings : Umem.Lifecycle.IsValid d
  pub mode : d.mmap_mode ≤ 1
  pub area : d.mmap_area ≤ 5
  pub channels : length d.irq_outstanding ≡ int_maxsources

-- What is asked of the kernel: the memory that it hands out is not in use. And the two counters of
-- ids have not run round.
pub record IsFair (k : AllocAnswer) (m : MapAnswer) (d : Privdata) : Type 0 where
  pub kmem_room : d.kmem_count + 1 < 2 ^ 32
  pub umem_room : d.umem_count + 1 < 2 ^ 32
  pub alloc : IsFreshAnswer k d
  pub map : (p : ℕ) → m.entry ≡ some p → IsFresh (λ x. x.addr) p d.umem_list

-- The parts of a device that kmem.c, and that umem.c, leave alone.
abbrev pub SameButKmem : Privdata → Privdata → Type 0
SameButKmem d d' =
    (d'.umem_list ≡ d.umem_list)
    × (d'.umem_count ≡ d.umem_count)
    × (d'.mmap_mode ≡ d.mmap_mode)
    × (d'.mmap_area ≡ d.mmap_area)
    × (d'.irq_outstanding ≡ d.irq_outstanding)

abbrev pub SameButUmem : Privdata → Privdata → Type 0
SameButUmem d d' =
    (d'.kmem_list ≡ d.kmem_list)
    × (d'.kmem_count ≡ d.kmem_count)
    × (d'.mmap_mode ≡ d.mmap_mode)
    × (d'.mmap_area ≡ d.mmap_area)
    × (d'.irq_outstanding ≡ d.irq_outstanding)

pub kmem_alloc-Same :
    (k : AllocAnswer) (d : Privdata) (h : KmemHandle) → SameButKmem d (kmem_alloc k d h).2
unfolding kmem_alloc
kmem_alloc-Same k d h = ground arith

kmem_free-Same : (d : Privdata) (h : KmemHandle) → SameButKmem d (kmem_free d h).1
unfolding kmem_free
kmem_free-Same d h = ground arith

sgmap_entry-Same :
    (k : MapAnswer) (d : Privdata) (h : UmemHandle) (pages_ptr sg_ptr nr : ℕ) (done : List _)
    → SameButUmem d (sgmap_entry pages_ptr sg_ptr nr done k d h).2
unfolding sgmap_entry
sgmap_entry-Same k d h pages_ptr sg_ptr nr done = ground arith

umem_sgmap-Same :
    (k : MapAnswer) (d : Privdata) (h : UmemHandle) → SameButUmem d (umem_sgmap k d h).2
umem_sgmap-Same k d h = elim (umem_sgmap-cases k d h) [
  | inl bad ↦ rw bad.1 (refl, refl, refl, refl, refl)
  | inr r ↦ rw r.stage (sgmap_entry-Same k d h r.pages_ptr r.sg_ptr _ _)
]

pub kmem-IsDevice :
    (d d' : Privdata) → SameButKmem d d' → Kmem.Invariant.IsValid d' → IsDevice d → IsDevice d'
kmem-IsDevice d d' s v w = record {
  buffers = v;
  mappings = record {
    blocks = rw s.0 w.mappings.blocks;
    ids = rw s.0 w.mappings.ids;
    below = rw (s.0, s.1) w.mappings.below;
  };
  mode = omega (arith, s.2, w.mode);
  area = omega (arith, s.3, w.area);
  channels = rw s.4 w.channels;
}

pub umem-IsDevice :
    (d d' : Privdata) → SameButUmem d d' → Umem.Lifecycle.IsValid d' → IsDevice d → IsDevice d'
umem-IsDevice d d' s v w = record {
  buffers = record {
    blocks = rw s.0 w.buffers.blocks;
    handles = rw s.0 w.buffers.handles;
    ids = rw s.0 w.buffers.ids;
    below = rw (s.0, s.1) w.buffers.below;
  };
  mappings = v;
  mode = omega (arith, s.2, w.mode);
  area = omega (arith, s.3, w.area);
  channels = rw s.4 w.channels;
}

-- The device after an ioctl is the one before, or the one that the component has made.
either-IsDevice :
    {d d' out : Privdata} → (out ≡ d) ⊎ (out ≡ d') → IsDevice d → IsDevice d' → IsDevice out
either-IsDevice (inl e) v w = rw e v
either-IsDevice (inr e) v w = rw e w

pub kmem_alloc-IsDevice :
    (u : User) (k : AllocAnswer) (m : MapAnswer) (d : Privdata) (h : KmemHandle)
    → IsFair k m d
    → IsDevice d
    → IsDevice (ioctl_kmem_alloc u k d h).2
unfolding ioctl_kmem_alloc
kmem_alloc-IsDevice u k m d h f v =
    let end : ((ioctl_kmem_alloc u k d h).2 ≡ d)
        ⊎ ((ioctl_kmem_alloc u k d h).2 ≡ (kmem_alloc k d h).2) =
      ground arith in
    either-IsDevice end v (
      kmem-IsDevice d _ (kmem_alloc-Same k d h)
        (kmem_alloc-IsValid k d h f.kmem_room f.alloc v.buffers) v)

pub kmem_free-IsDevice :
    (u : User) (d : Privdata) (h : KmemHandle) → IsDevice d → IsDevice (ioctl_kmem_free u d h).2
unfolding ioctl_kmem_free
kmem_free-IsDevice u d h v =
    let end : ((ioctl_kmem_free u d h).2 ≡ d) ⊎ ((ioctl_kmem_free u d h).2 ≡ (kmem_free d h).1) =
      ground arith in
    either-IsDevice end v
      (kmem-IsDevice d _ (kmem_free-Same d h) (kmem_free-IsValid d h v.buffers) v)

pub umem_sgmap-IsDevice :
    (u : User) (k : AllocAnswer) (m : MapAnswer) (d : Privdata) (h : UmemHandle)
    → IsFair k m d
    → IsDevice d
    → IsDevice (ioctl_umem_sgmap u m d h).2
unfolding ioctl_umem_sgmap
umem_sgmap-IsDevice u k m d h f v =
    let end : ((ioctl_umem_sgmap u m d h).2 ≡ d)
        ⊎ ((ioctl_umem_sgmap u m d h).2 ≡ (umem_sgmap m d h).2) =
      ground arith in
    either-IsDevice end v (
      umem-IsDevice d _ (umem_sgmap-Same m d h)
        (umem_sgmap-IsValid m d h f.umem_room f.map v.mappings) v)

sgunmap-found :
    (u : User) (d : Privdata) (h : UmemHandle)
    → ((ioctl_umem_sgunmap u d h).2 ≡ d)
      ⊎ ((e : UmemEntry) × ((ioctl_umem_sgunmap u d h).2 ≡ (umem_sgunmap d e).1))
unfolding ioctl_umem_sgunmap
sgunmap-found u d h = elim (Option-cases (umem_find_entry_id d h.handle_id)) [
  | inl e ↦ inl (rw e (ground arith))
  | inr (x, e) ↦ elim (Bool-cases u.readable) [
    | inl r ↦ inr (x, simp (r, e) refl)
    | inr r ↦ inl (simp r refl)
  ]
]

pub sgunmap-Same : (d : Privdata) (e : UmemEntry) → SameButUmem d (umem_sgunmap d e).1
unfolding umem_sgunmap
sgunmap-Same d e = (refl, refl, refl, refl, refl)

pub umem_sgunmap-IsDevice :
    (u : User) (d : Privdata) (h : UmemHandle) → IsDevice d → IsDevice (ioctl_umem_sgunmap u d h).2
umem_sgunmap-IsDevice u d h v = elim (sgunmap-found u d h) [
  | inl same ↦ rw same v
  | inr (e, cut) ↦
      rw cut (umem-IsDevice d _ (sgunmap-Same d e) (umem_sgunmap-IsValid d e v.mappings) v)
]
