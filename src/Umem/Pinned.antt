-- ===== src/Umem/Pinned.antt =====
-- The pages that get_user_pages has pinned and the first loop of `pcidriver_umem_sgmap` has locked:
-- what the two undoing loops give back. Resources are compared by number, under any test on them.
use fpga_pcie_drivers.Common.{
  ℕ, zero, suc, ◌+◌, ◌^◌, ◌<◌, ◌≤◌, ◌≡◌, ◌⊎◌, inl, inr, refl, Bool, true, ◌&&◌, if◌then◌else◌, List,
  [], ◌∷◌, map, length, arith, Bool-cases, lt→ltb, take, count, take_all, length-map,
}
use fpga_pcie_drivers.Kernel.{Resource, page_lock, acquired, released}
use fpga_pcie_drivers.Device.{UmemHandle, Page}
use fpga_pcie_drivers.Umem.Pages.{
  lt_int, nr_pages_of, visited, lock_page, lock_calls, pin_calls, undo_calls, unpin_calls,
}
use fpga_pcie_drivers.Umem.Map.{MapAnswer, up_to}

-- the locks of those pages that are locked
abbrev pub locks : List Page → List Resource
locks [] = []
locks (p ∷ ps) = if p.locked then page_lock p.frame ∷ locks ps else locks ps

-- the locks of those reserved pages that are locked
abbrev pub reserved_locks : List Page → List Resource
reserved_locks [] = []
reserved_locks (p ∷ ps) =
    if p.reserved && p.locked then page_lock p.frame ∷ reserved_locks ps else reserved_locks ps

module _ (t : Resource → Bool) where
  pub undo-pin :
      (ps : List Page)
      → count t (released (undo_calls ps)) ≡ count t (acquired (pin_calls ps)) + count t (locks ps)
  unfolding undo_calls count
  undo-pin [] = omega arith
  undo-pin (p ∷ ps) = ground (arith, undo-pin ps)

  pub undo-lock :
      (ps : List Page)
      → count t (released (undo_calls (map lock_page ps)))
        ≡ count t (acquired (pin_calls ps))
          + count t (acquired (lock_calls ps))
          + count t (reserved_locks ps)
  unfolding undo_calls count
  undo-lock [] = omega arith
  undo-lock (p ∷ ps) = ground (arith, undo-lock ps)

  pub unpin-lock :
      (ps : List Page)
      → count t (released (unpin_calls (map lock_page ps)))
        ≡ count t (acquired (pin_calls ps)) + count t (acquired (lock_calls ps))
  unfolding unpin_calls count
  unpin-lock [] = omega arith
  unpin-lock (p ∷ ps) = ground (arith, unpin-lock ps)

pub released-pin : (ps : List Page) → released (pin_calls ps) ≡ []
released-pin [] = refl
released-pin (p ∷ ps) = released-pin ps

pub released-lock : (ps : List Page) → released (lock_calls ps) ≡ []
released-lock [] = refl
released-lock (p ∷ ps) = ground (arith, released-lock ps)

pub acquired-undo : (ps : List Page) → acquired (undo_calls ps) ≡ []
unfolding undo_calls
acquired-undo [] = refl
acquired-undo (p ∷ ps) = ground (arith, acquired-undo ps)

pub acquired-unpin : (ps : List Page) → acquired (unpin_calls ps) ≡ []
unfolding unpin_calls
acquired-unpin [] = refl
acquired-unpin (p ∷ ps) = ground (arith, acquired-unpin ps)

-- What the kernel promises of get_user_pages: it returns the number of pages that it has pinned, no
-- more than it was asked for, or a negative number, and then it has pinned none.
pub record IsPinning (k : MapAnswer) (h : UmemHandle) : Type 0 where
  pub counted : (k.res ≡ length k.pinned) ⊎ ((2 ^ 31 ≤ k.res) × (k.res < 2 ^ 32) × (k.pinned ≡ []))
  pub at_most : length k.pinned ≤ nr_pages_of h.vma h.size

nr_pages_range :
    (vma size : ℕ)
    → 0 < size
    → size < 2 ^ 42
    → (0 < nr_pages_of vma size) × (nr_pages_of vma size < 2 ^ 31)
unfolding nr_pages_of
nr_pages_range vma size pos small = omega arith

take-nil {ℓ} : (A : Type ℓ) (n : ℕ) → take {A = A} n [] ≡ []
take-nil A zero = refl
take-nil A (suc n) = refl

up_to-nil : (n : ℕ) → up_to n [] ≡ []
up_to-nil n = elim (Bool-cases (lt_int 0 n)) [ inl e ↦ rw e (take-nil _ n) | inr e ↦ rw e ]

up_to_all : (n : ℕ) (ps : List Page) → n < 2 ^ 31 → length ps ≤ n → up_to n ps ≡ ps
up_to_all n [] small h = up_to-nil n
up_to_all n (p ∷ ps) small h =
    let positive : lt_int 0 n ≡ true = lt→ltb _ _ (omega arith) in
    rw positive (take_all n (p ∷ ps) h)

visited_all :
    (n : ℕ) (ps : List Page) → 0 < n → n < 2 ^ 31 → length ps ≤ n → take (visited n) ps ≡ ps
visited_all n ps pos small h = take_all (visited n) ps (ground arith)

-- The loop that runs up to the number of pinned pages visits exactly those.
pub up_to-res :
    (k : MapAnswer) (h : UmemHandle)
    → IsPinning k h
    → 0 < h.size
    → h.size < 2 ^ 42
    → up_to k.res k.pinned ≡ k.pinned
up_to-res k h v pos small = elim v.counted [
  | inl e ↦
      up_to_all k.res k.pinned (omega (arith, nr_pages_range h.vma h.size pos small, v.at_most))
        (omega arith)
  | inr e ↦ rw e.2 (up_to-nil k.res)
]

-- The state of the code once all pages are pinned and locked.
pub record IsLocked (nr : ℕ) (k : MapAnswer) : Type 0 where
  pub visits : take (visited nr) k.pinned ≡ k.pinned
  pub undoes : up_to nr (map lock_page k.pinned) ≡ map lock_page k.pinned

pub pinned-IsLocked :
    (k : MapAnswer) (h : UmemHandle)
    → IsPinning k h
    → 0 < h.size
    → h.size < 2 ^ 42
    → IsLocked (nr_pages_of h.vma h.size) k
pinned-IsLocked k h v pos small =
    let bounds = nr_pages_range h.vma h.size pos small in
    record {
      visits = visited_all _ k.pinned bounds.0 bounds.1 v.at_most;
      undoes =
          up_to_all _ (map lock_page k.pinned) bounds.1
            (omega (arith, v.at_most, length-map lock_page k.pinned));
    }
