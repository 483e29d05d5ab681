-- ===== src/Kmem/Invariant.antt =====
-- What holds of a device's list of kernel buffers between two calls of kmem.c.
use fpga_pcie_drivers.Common.{
  ℕ, ◌+◌, ◌%◌, ◌^◌, ◌<◌, ◌≡◌, some, All, DistinctBy, IsFresh, arith, All-snoc, All-map,
  All-remove_by, DistinctBy-snoc, DistinctBy-remove_by, Option-cases, Bool-cases, inl, inr,
}
use fpga_pcie_drivers.Kernel.{failed, kbuf}
use fpga_pcie_drivers.Device.{KmemHandle, KmemEntry, Privdata}
use fpga_pcie_drivers.Sysfs.{sysfs_initialize}
use fpga_pcie_drivers.Kmem.{AllocAnswer, kmem_alloc, kmem_find_entry, kmem_free_entry, kmem_free}

-- Every entry has its own address, bus address and id, and the counter is past all ids.
pub record IsValid (d : Privdata) : Type 0 where
  pub blocks : DistinctBy (λ e. e.addr) d.kmem_list
  pub handles : DistinctBy (λ e. e.dma_handle) d.kmem_list
  pub ids : DistinctBy (λ e. e.id) d.kmem_list
  pub below : All (λ e. e.id < d.kmem_count) d.kmem_list

-- The kernel hands out memory that is not in use: neither the entry nor the buffer is one of the
-- list's.
pub record IsFreshAnswer (k : AllocAnswer) (d : Privdata) : Type 0 where
  pub entry : (p : ℕ) → k.entry ≡ some p → IsFresh (λ e. e.addr) p d.kmem_list
  pub buffer : (c : ℕ × ℕ) → k.buffer ≡ some c → IsFresh (λ e. e.dma_handle) c.1 d.kmem_list

counted-IsValid :
    (d : Privdata)
    → d.kmem_count + 1 < 2 ^ 32
    → IsValid d
    → IsValid (record d { kmem_count = (d.kmem_count + 1) % 2 ^ 32 })
counted-IsValid d room v = record {
  blocks = v.blocks;
  handles = v.handles;
  ids = v.ids;
  below = All-map _ _ d.kmem_list (λ e h. omega arith) v.below;
}

-- `pcidriver_kmem_alloc` keeps the invariant on every path, errors included, as long as the kernel
-- hands out fresh memory and the 32-bit counter of ids has not run round.
pub kmem_alloc-IsValid :
    (k : AllocAnswer) (d : Privdata) (h : KmemHandle)
    → d.kmem_count + 1 < 2 ^ 32
    → IsFreshAnswer k d
    → IsValid d
    → IsValid (kmem_alloc k d h).2
unfolding kmem_alloc
kmem_alloc-IsValid k d h room f v = elim (Option-cases k.entry) [
  | inl none_left ↦ rw none_left v
  | inr (p, e) ↦ rw e (elim (Bool-cases (failed (sysfs_initialize (kbuf d.kmem_count) k.attr).0)) [
    | inl bad ↦ rw bad (counted-IsValid d room v)
    | inr good ↦ elim (Option-cases k.buffer) [
      | inl no_buffer ↦ rw (good, no_buffer) (counted-IsValid d room v)
      | inr (c, b) ↦
          rw (good, b)
            (record {
              blocks = DistinctBy-snoc _ d.kmem_list _ v.blocks (f.entry p e);
              handles = DistinctBy-snoc _ d.kmem_list _ v.handles (f.buffer c b);
              ids =
                  DistinctBy-snoc _ d.kmem_list _ v.ids
                    (All-map _ _ d.kmem_list (λ x h. omega arith) v.below);
              below =
                  All-snoc _ d.kmem_list _ (All-map _ _ d.kmem_list (λ x h. omega arith) v.below)
                    (omega arith);
            })
    ]
  ])
]

pub kmem_free_entry-IsValid :
    (d : Privdata) (e : KmemEntry) → IsValid d → IsValid (kmem_free_entry d e).1
unfolding kmem_free_entry
kmem_free_entry-IsValid d e v = record {
  blocks = DistinctBy-remove_by _ _ _ d.kmem_list v.blocks;
  handles = DistinctBy-remove_by _ _ _ d.kmem_list v.handles;
  ids = DistinctBy-remove_by _ _ _ d.kmem_list v.ids;
  below = All-remove_by _ _ _ d.kmem_list v.below;
}

-- `pcidriver_kmem_free` keeps the invariant, whatever handle it is given.
pub kmem_free-IsValid : (d : Privdata) (h : KmemHandle) → IsValid d → IsValid (kmem_free d h).1
unfolding kmem_free
kmem_free-IsValid d h v = elim (Option-cases (kmem_find_entry d h)) [
  | inl e ↦ rw (e, kmem_free) v
  | inr (x, e) ↦ rw (e, kmem_free) (kmem_free_entry-IsValid d x v)
]
