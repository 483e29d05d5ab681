-- ===== src/Umem/Balance.antt =====
-- What the error paths of `pcidriver_umem_sgmap` give back. Resources are compared by number, under
-- any test on them.
use fpga_pcie_drivers.Common.{
  ℕ, ◌+◌, ◌^◌, ◌<◌, ◌≡◌, ◌⊎◌, inl, inr, Bool, true, false, List, [], ◌∷◌, ◌++◌, arith, Bool-cases,
  List-cases, Option-cases, not, ◌&&◌, is_some, if◌then◌else◌, take, count, one, some, none, ◌==◌,
}
use fpga_pcie_drivers.Kernel.{
  traces, acquire, vm_area, sg_mapping, failed, Event, Resource, acquired, released,
}
use fpga_pcie_drivers.Device.{SgEntry, UmemHandle, Privdata}
use fpga_pcie_drivers.Umem.Pages.{lt_int, nr_pages_of, visited, lock_calls, pin_calls}
use fpga_pcie_drivers.Umem.Map.{MapAnswer, up_to, umem_sgmap, sgmap_entry, sgmap_pages}
use fpga_pcie_drivers.Umem.Pinned.{
  locks, reserved_locks, undo-pin, undo-lock, released-pin, released-lock, acquired-undo, IsPinning,
  up_to-res, IsLocked, pinned-IsLocked,
}

-- the calls up to the mapping of the scatterlist
abbrev pub calls_so_far : ℕ → ℕ → ℕ → MapAnswer → List Event
calls_so_far pages_ptr sg_ptr nr k =
    ((acquire (vm_area pages_ptr) ∷ acquire (vm_area sg_ptr) ∷ pin_calls k.pinned)
      ++ lock_calls (take (visited nr) k.pinned))
    ++ acquire (sg_mapping sg_ptr nr) ∷ []

pub sgmap_pages-mapped :
    (pages_ptr sg_ptr nr : ℕ) (k : MapAnswer) (d : Privdata) (h : UmemHandle) (x : SgEntry)
    (xs : List SgEntry)
    → lt_int k.res nr ≡ false
    → k.mapped ≡ x ∷ xs
    → sgmap_pages pages_ptr sg_ptr nr k d h
      ≡ sgmap_entry pages_ptr sg_ptr nr (calls_so_far pages_ptr sg_ptr nr k) k d h
unfolding sgmap_pages
sgmap_pages-mapped pages_ptr sg_ptr nr k d h x xs enough e = simp (enough, e)

pub umem_sgmap-areas :
    (k : MapAnswer) (d : Privdata) (h : UmemHandle) (pages_ptr sg_ptr : ℕ)
    → (h.size == 0) ≡ false
    → k.pages_area ≡ some pages_ptr
    → k.sg_area ≡ some sg_ptr
    → umem_sgmap k d h ≡ sgmap_pages pages_ptr sg_ptr (nr_pages_of h.vma h.size) k d h
unfolding umem_sgmap
umem_sgmap-areas k d h pages_ptr sg_ptr pos e f = simp (pos, e, f)

module _ (t : Resource → Bool) where
  sgmap_entry_balanced :
      (pages_ptr sg_ptr nr : ℕ) (done : List Event) (k : MapAnswer) (d : Privdata) (h : UmemHandle)
      → IsLocked nr k
      → failed (sgmap_entry pages_ptr sg_ptr nr done k d h).0 ≡ true
      → (k.attr.name ≡ none) ⊎ (k.attr.created ≡ true)
      → count t (acquired done)
        ≡ one t (vm_area pages_ptr)
          + one t (vm_area sg_ptr)
          + one t (sg_mapping sg_ptr nr)
          + count t (acquired (pin_calls k.pinned))
          + count t (acquired (lock_calls k.pinned))
          + count t (released done)
      → count t (released (sgmap_entry pages_ptr sg_ptr nr done k d h).3)
        ≡ count t (acquired (sgmap_entry pages_ptr sg_ptr nr done k d h).3)
          + count t (reserved_locks k.pinned)
  unfolding sgmap_entry
  sgmap_entry_balanced pages_ptr sg_ptr nr done k d h l bad attr sum = elim (Option-cases k.entry) [
    | inl e ↦
        rw (e, l.visits, l.undoes)
          (simp (traces, acquired-undo) (omega (arith, undo-lock t k.pinned)))
    | inr (p, e) ↦ elim (Option-cases k.attr.name) [
      | inl f ↦
          rw (e, f, l.visits, l.undoes)
            (simp (traces, acquired-undo) (omega (arith, undo-lock t k.pinned)))
      | inr (q, f) ↦ absurd (ground arith)
    ]
  ]

  sgmap_pages_balanced :
      (pages_ptr sg_ptr nr : ℕ) (k : MapAnswer) (d : Privdata) (h : UmemHandle)
      → IsLocked nr k
      → up_to k.res k.pinned ≡ k.pinned
      → failed (sgmap_pages pages_ptr sg_ptr nr k d h).0 ≡ true
      → (k.attr.name ≡ none) ⊎ (k.attr.created ≡ true)
      → count t (released (sgmap_pages pages_ptr sg_ptr nr k d h).3)
        ≡ count t (acquired (sgmap_pages pages_ptr sg_ptr nr k d h).3)
          + count t (if lt_int k.res nr then locks k.pinned else reserved_locks k.pinned)
  unfolding sgmap_pages
  sgmap_pages_balanced pages_ptr sg_ptr nr k d h l all bad attr =
      elim (Bool-cases (lt_int k.res nr)) [
        | inl short ↦
            rw (short, all)
              (simp (traces, acquired-undo, released-pin) (omega (arith, undo-pin t k.pinned)))
        | inr enough ↦ elim (List-cases k.mapped) [
          | inl e ↦
              rw (enough, e, l.visits, l.undoes)
                (simp (traces, acquired-undo, released-pin, released-lock)
                  (omega (arith, undo-lock t k.pinned)))
          | inr (x, xs, e) ↦
              let next = sgmap_pages-mapped pages_ptr sg_ptr nr k d h x xs enough e in
              let state : failed
                    (sgmap_entry pages_ptr sg_ptr nr (calls_so_far pages_ptr sg_ptr nr k) k d h).0
                  ≡ true =
                rw next at bad in
              rw (next, enough)
                (sgmap_entry_balanced pages_ptr sg_ptr nr (calls_so_far pages_ptr sg_ptr nr k) k d h
                  l state attr
                  (rw l.visits (simp (traces, released-pin, released-lock) (omega arith))))
        ]
      ]

-- The page locks that a mapping which fails gives back without having taken them: if fewer pages were
-- pinned than asked for, those of all pinned pages, and later those of reserved pages only.
abbrev pub locks_of_others : MapAnswer → UmemHandle → List Resource
locks_of_others k h =
    if not (h.size == 0) && is_some k.pages_area && is_some k.sg_area
    then (if lt_int k.res (nr_pages_of h.vma h.size)
        then locks k.pinned
        else reserved_locks k.pinned)
    else []

-- The range is shorter than 2^42 bytes, and get_user_pages returns the number of pages that it has pinned, or
-- a negative number if none. A mapping that fails gives back what it has taken, unless the attribute's
-- name was copied and its file could not be made; and besides that exactly the page locks of others: if
-- fewer pages were pinned than the range touches, the lock of every pinned page that somebody holds;
-- and if it fails later, those of the reserved ones among them, which the code does not lock itself.
pub umem_sgmap_fails_balanced :
    (k : MapAnswer) (d : Privdata) (h : UmemHandle) (t : Resource → Bool)
    → h.size < 2 ^ 42
    → IsPinning k h
    → failed (umem_sgmap k d h).0 ≡ true
    → (k.attr.name ≡ none) ⊎ (k.attr.created ≡ true)
    → count t (released (umem_sgmap k d h).3)
      ≡ count t (acquired (umem_sgmap k d h).3) + count t (locks_of_others k h)
unfolding umem_sgmap count
umem_sgmap_fails_balanced k d h t small v bad attr = elim (Bool-cases (h.size == 0)) [
  | inl e ↦ rw e (omega arith)
  | inr pos ↦ elim (Option-cases k.pages_area) [
    | inl e ↦ rw (pos, e) (omega arith)
    | inr (pages_ptr, e) ↦ elim (Option-cases k.sg_area) [
      | inl f ↦ rw (pos, e, f) (simp traces (omega arith))
      | inr (sg_ptr, f) ↦
          let nonzero : 0 < h.size = ground arith in
          let next = umem_sgmap-areas k d h pages_ptr sg_ptr pos e f in
          let state : failed (sgmap_pages pages_ptr sg_ptr (nr_pages_of h.vma h.size) k d h).0
              ≡ true =
            rw next at bad in
          rw (pos, e, f)
            (sgmap_pages_balanced t pages_ptr sg_ptr _ k d h (pinned-IsLocked k h v nonzero small)
              (up_to-res k h v nonzero small) state attr)
    ]
  ]
]
