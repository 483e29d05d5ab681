-- ===== src/Kmem/Lookup.antt =====
-- The list of kernel buffers as the map that a client sees, from the bus address of a handle to
-- the id and size of the buffer.
use fpga_pcie_drivers.Common.{
  ℕ, ◌≡◌, refl, ap, Option, none, some, [], ◌∷◌, ◌++◌, arith, find_by, Option-cases, is_some,
  Bool-cases, inl, inr, ◌==◌, ==_iff, if◌then◌else◌, find_by-snoc_self, find_by-snoc_ne,
  remove_by-snoc_self, find_by-remove_self, find_by-remove_ne,
}
use mathlib.Core.Option
use mathlib.Core.List.{Perm, perm_middle}
use mathlib.Core.List.Perm
use fpga_pcie_drivers.Kernel.{
  ok, err, einval, kbuf, block, sysfs_file, dma_buffer, acquired, released,
}
use fpga_pcie_drivers.Device.{KmemHandle, KmemEntry, Privdata}
use fpga_pcie_drivers.Kmem.{AllocAnswer, kmem_alloc, kmem_free_entry, kmem_free}
use fpga_pcie_drivers.Kmem.Invariant.{IsValid, IsFreshAnswer}

-- What a client can learn of the buffer at a bus address.
unfoldable pub view : Privdata → ℕ → Option (ℕ × ℕ)
view d pa = Option.map (λ e. (e.id, e.size)) (find_by (λ e. e.dma_handle) pa d.kmem_list)

-- What a successful allocation has done, the entry `e` that it has added named.
pub record Allocated (k : AllocAnswer) (d : Privdata) (h : KmemHandle) (e : KmemEntry)
    : Type 0 where
  pub entry : k.entry ≡ some e.addr
  pub buffer : k.buffer ≡ some (e.cpua, e.dma_handle)
  pub id : e.id ≡ d.kmem_count
  pub size : e.size ≡ h.size
  pub list : (kmem_alloc k d h).2.kmem_list ≡ d.kmem_list ++ e ∷ []
  pub handle_pa : (kmem_alloc k d h).1.pa ≡ e.dma_handle
  pub handle_id : (kmem_alloc k d h).1.handle_id ≡ e.id
  pub took :
      acquired (kmem_alloc k d h).3
      ≡ block e.addr
        ∷ block e.name
        ∷ sysfs_file (kbuf e.id)
        ∷ dma_buffer e.size e.cpua e.dma_handle
        ∷ []

-- the entry that a successful allocation adds
abbrev pub value : Option ℕ → ℕ
value none = 0
value (some n) = n

abbrev pub buffer_of : Option (ℕ × ℕ) → ℕ × ℕ
buffer_of none = (0, 0)
buffer_of (some c) = c

abbrev pub new_entry : AllocAnswer → Privdata → KmemHandle → KmemEntry
new_entry k d h = record {
  addr = value k.entry;
  id = d.kmem_count;
  dma_handle = (buffer_of k.buffer).1;
  cpua = (buffer_of k.buffer).0;
  size = h.size;
  name = value k.attr.name;
}

pub kmem_alloc-Allocated :
    (k : AllocAnswer) (d : Privdata) (h : KmemHandle)
    → (kmem_alloc k d h).0 ≡ ok
    → Allocated k d h (new_entry k d h)
unfolding kmem_alloc
kmem_alloc-Allocated k d h done = ground arith

-- After a successful allocation the new handle finds a buffer with the new id and the size asked
-- for, and every other bus address finds what it found before.
pub view-kmem_alloc :
    (k : AllocAnswer) (d : Privdata) (h : KmemHandle) (pa : ℕ)
    → IsFreshAnswer k d
    → (kmem_alloc k d h).0 ≡ ok
    → view (kmem_alloc k d h).2 pa
      ≡ (if (kmem_alloc k d h).1.pa == pa then some (d.kmem_count, h.size) else view d pa)
unfolding view
view-kmem_alloc k d h pa f done =
    let a = kmem_alloc-Allocated k d h done in
    let e = new_entry k d h in
    rw (a.list, a.handle_pa)
      (elim (Bool-cases (e.dma_handle == pa)) [
        | inl same ↦
            rw (same, ← (==_iff _ _).0 same)
              (ap (Option.map _)
                (find_by-snoc_self _ d.kmem_list e (f.buffer (e.cpua, e.dma_handle) a.buffer)))
        | inr other ↦
            rw other (ap (Option.map _) (find_by-snoc_ne _ pa d.kmem_list e (ground arith)))
      ])

free_found :
    (d : Privdata) (h : KmemHandle) (e : KmemEntry)
    → find_by (λ x. x.dma_handle) h.pa d.kmem_list ≡ some e
    → kmem_free d h ≡ kmem_free_entry d e
unfolding kmem_free
free_found d h e found = rw (found, kmem_free)

free_unknown :
    (d : Privdata) (h : KmemHandle)
    → find_by (λ x. x.dma_handle) h.pa d.kmem_list ≡ none
    → kmem_free d h ≡ (err einval, d, [])
unfolding kmem_free
free_unknown d h unknown = rw (unknown, kmem_free)

-- `pcidriver_kmem_free` succeeds if the handle's bus address is known, and returns -EINVAL if not.
-- In both cases that address is unknown afterwards, and no other address is affected.
pub view-kmem_free :
    (d : Privdata) (h : KmemHandle) (pa : ℕ)
    → IsValid d
    → ((kmem_free d h).0 ≡ (if is_some (view d h.pa) then ok else err einval))
      × (view (kmem_free d h).1 pa ≡ (if h.pa == pa then none else view d pa))
unfolding view kmem_free_entry
view-kmem_free d h pa v = elim (Option-cases (find_by (λ e. e.dma_handle) h.pa d.kmem_list)) [
  | inl unknown ↦
      rw (free_unknown d h unknown, unknown)
        (
          refl,
          elim (Bool-cases (h.pa == pa)) [
            | inl same ↦ rw (same, ← (==_iff _ _).0 same, unknown)
            | inr other ↦ rw other
          ],
        )
  | inr (e, found) ↦
      rw (free_found d h e found, found)
        (
          refl,
          elim (Bool-cases (h.pa == pa)) [
            | inl same ↦ rw (
              same,
              ← (==_iff _ _).0 same,
              find_by-remove_self _ _ h.pa d.kmem_list e v.handles v.blocks found,
            )
            | inr other ↦
                rw
                  (other, find_by-remove_ne _ _ h.pa pa d.kmem_list e v.blocks found (ground arith))
          ],
        )
]

-- What freeing an entry gives back is what allocating it took, in another order.
free_perm {ℓ} : {A : Type ℓ} (a b c d : A) → Perm (c ∷ b ∷ d ∷ a ∷ []) (a ∷ b ∷ c ∷ d ∷ [])
free_perm a b c d =
    Perm.trans (perm_middle (c ∷ b ∷ d ∷ []) []) (Perm.cons a (Perm.swap b c (d ∷ [])))

-- A buffer that is allocated and freed at once leaves the list as it was, and gives back exactly
-- what was taken from the kernel.
pub kmem_free-kmem_alloc :
    (k : AllocAnswer) (d : Privdata) (h : KmemHandle)
    → IsFreshAnswer k d
    → (kmem_alloc k d h).0 ≡ ok
    → let (status, handle, used, calls) = kmem_alloc k d h in
      ((kmem_free used handle).0 ≡ ok)
      × ((kmem_free used handle).1.kmem_list ≡ d.kmem_list)
      × Perm (released (kmem_free used handle).2) (acquired calls)
unfolding kmem_free_entry
kmem_free-kmem_alloc k d h f done =
    let a = kmem_alloc-Allocated k d h done in
    let e = new_entry k d h in
    let found : find_by (λ x. x.dma_handle) (kmem_alloc k d h).1.pa (kmem_alloc k d h).2.kmem_list
        ≡ some e =
      rw (a.list, a.handle_pa)
        (find_by-snoc_self _ d.kmem_list e (f.buffer (e.cpua, e.dma_handle) a.buffer)) in
    rw (free_found (kmem_alloc k d h).2 (kmem_alloc k d h).1 e found, a.list, a.took)
      (refl, remove_by-snoc_self _ d.kmem_list e (f.entry e.addr a.entry), free_perm _ _ _ _)
