-- ===== src/Kmem/Refinement.antt =====
-- Sequences of `pcidriver_kmem_alloc` and `pcidriver_kmem_free` against a map from bus addresses.
use fpga_pcie_drivers.Common.{
  ℕ, ◌+◌, ◌^◌, ◌<◌, ◌≡◌, refl, ap, sym, ◌∙◌, true, Option, none, some, List, [], ◌∷◌, arith,
  is_some, ◌==◌, if◌then◌else◌, find_by-IsFresh, find_by, Bool-cases, inl, inr, ==_iff,
}
use mathlib.Core.Option
use mathlib.Core.Path.{subst}
use fpga_pcie_drivers.Kernel.{ok, failed}
use fpga_pcie_drivers.Device.{KmemHandle, Privdata}
use fpga_pcie_drivers.Kmem.{AllocAnswer, kmem_alloc, kmem_free}
use fpga_pcie_drivers.Kmem.Invariant.{IsValid, IsFreshAnswer, kmem_alloc-IsValid, kmem_free-IsValid}
use fpga_pcie_drivers.Kmem.Cleanup.{kmem_alloc-failed}
use fpga_pcie_drivers.Kmem.Lookup.{view, view-kmem_alloc, view-kmem_free, kmem_alloc-Allocated}

-- What a client sees of a call.
pub data Observed : Type 0 where
  allocated : ℕ → ℕ → ℕ → Observed
  refused : Observed
  freed : ℕ → Observed
  unknown : ℕ → Observed

-- The calls of the driver, each with what is seen of it. What the kernel hands out is not in use, and
-- the counter of ids does not run round.
pub data Call (d : Privdata) : Observed → Privdata → Type 0 where
  allocates :
      (k : AllocAnswer) (h : KmemHandle)
      → IsFreshAnswer k d
      → d.kmem_count + 1 < 2 ^ 32
      → (kmem_alloc k d h).0 ≡ ok
      → Call d
          (allocated (kmem_alloc k d h).1.pa (kmem_alloc k d h).1.handle_id h.size)
          (kmem_alloc k d h).2
  fails :
      (k : AllocAnswer) (h : KmemHandle)
      → IsFreshAnswer k d
      → d.kmem_count + 1 < 2 ^ 32
      → failed (kmem_alloc k d h).0 ≡ true
      → Call d refused (kmem_alloc k d h).2
  frees : (h : KmemHandle) → (kmem_free d h).0 ≡ ok → Call d (freed h.pa) (kmem_free d h).1
  misses :
      (h : KmemHandle) → failed (kmem_free d h).0 ≡ true → Call d (unknown h.pa) (kmem_free d h).1

-- the latest call first
pub data Calls (d : Privdata) : List Observed → Privdata → Type 0 where
  stop : Calls d [] d
  call :
      {o : Observed} {os : List Observed} {e f : Privdata}
      → Calls d os e
      → Call e o f
      → Calls d (o ∷ os) f

-- The specification: a map from bus addresses to ids and sizes.
abbrev pub BufferMap : Type 0
BufferMap = ℕ → Option (ℕ × ℕ)

abbrev pub put : ℕ → ℕ × ℕ → BufferMap → BufferMap
put pa x m = λ a. if pa == a then some x else m a

abbrev pub erase : ℕ → BufferMap → BufferMap
erase pa m = λ a. if pa == a then none else m a

-- An allocation adds a new address, or nothing; a known address is erased, and an unknown one is not.
pub data Spec (m : BufferMap) : Observed → BufferMap → Type 0 where
  adds : (pa id size : ℕ) → m pa ≡ none → Spec m (allocated pa id size) (put pa (id, size) m)
  adds_nothing : Spec m refused m
  erases : (pa : ℕ) → is_some (m pa) ≡ true → Spec m (freed pa) (erase pa m)
  erases_nothing : (pa : ℕ) → m pa ≡ none → Spec m (unknown pa) m

pub data Specs (m : BufferMap) : List Observed → BufferMap → Type 0 where
  stop : Specs m [] m
  step :
      {o : Observed} {os : List Observed} {n r : BufferMap}
      → Specs m os n
      → Spec n o r
      → Specs m (o ∷ os) r

Call-IsValid : (d e : Privdata) (o : Observed) → IsValid d → Call d o e → IsValid e
Call-IsValid d _ _ v (allocates k h fresh room good) = kmem_alloc-IsValid k d h room fresh v
Call-IsValid d _ _ v (fails k h fresh room bad) = kmem_alloc-IsValid k d h room fresh v
Call-IsValid d _ _ v (frees h good) = kmem_free-IsValid d h v
Call-IsValid d _ _ v (misses h bad) = kmem_free-IsValid d h v

unseen_before :
    (k : AllocAnswer) (d : Privdata) (h : KmemHandle)
    → IsFreshAnswer k d
    → (kmem_alloc k d h).0 ≡ ok
    → view d (kmem_alloc k d h).1.pa ≡ none
unfolding view
unseen_before k d h f good =
    let a = kmem_alloc-Allocated k d h good in
    rw a.handle_pa (ap (Option.map _) (find_by-IsFresh _ _ d.kmem_list (f.buffer _ a.buffer)))

refused_unseen :
    (k : AllocAnswer) (d : Privdata) (h : KmemHandle)
    → failed (kmem_alloc k d h).0 ≡ true
    → view (kmem_alloc k d h).2 ≡ view d
unfolding view
refused_unseen k d h bad =
    let same = (kmem_alloc-failed k d h bad).1 in
    λ i pa. Option.map (λ e. (e.id, e.size)) (find_by (λ e. e.dma_handle) pa (same i))

missed :
    (d : Privdata) (h : KmemHandle) (pa : ℕ)
    → IsValid d
    → view d h.pa ≡ none
    → view (kmem_free d h).1 pa ≡ view d pa
missed d h pa v lost = (view-kmem_free d h pa v).1 ∙ elim (Bool-cases (h.pa == pa)) [
  | inl e ↦ let here : h.pa ≡ pa = (==_iff _ _).0 e in rw e (sym (ap (view d) (sym here) ∙ lost))
  | inr e ↦ rw e refl
]

Call-Spec : (d e : Privdata) (o : Observed) → IsValid d → Call d o e → Spec (view d) o (view e)
Call-Spec d _ _ v (allocates k h fresh room good) =
    let pa = (kmem_alloc k d h).1.pa in
    let id = (kmem_alloc k d h).1.handle_id in
    let a = kmem_alloc-Allocated k d h good in
    let named : d.kmem_count ≡ id = sym (a.handle_id ∙ a.id) in
    let same : view (kmem_alloc k d h).2 ≡ put pa (id, h.size) (view d) = λ i x.
      (view-kmem_alloc k d h x fresh good
          ∙ ap (λ n. if pa == x then some (n, h.size) else view d x) named)
        i in
    subst (λ m. Spec (view d) (allocated pa id h.size) m) (sym same)
      (adds pa id h.size (unseen_before k d h fresh good))
Call-Spec d _ _ v (fails k h fresh room bad) =
    subst (λ m. Spec (view d) refused m) (sym (refused_unseen k d h bad)) adds_nothing
Call-Spec d _ _ v (frees h good) =
    let same : view (kmem_free d h).1 ≡ erase h.pa (view d) = λ i x. (view-kmem_free d h x v).1 i in
    let known : is_some (view d h.pa) ≡ true =
      let status = (view-kmem_free d h h.pa v).0 in ground arith in
    subst (λ m. Spec (view d) (freed h.pa) m) (sym same) (erases h.pa known)
Call-Spec d _ _ v (misses h bad) =
    let lost : view d h.pa ≡ none = let status = (view-kmem_free d h h.pa v).0 in ground arith in
    let same : view (kmem_free d h).1 ≡ view d = λ i x. (missed d h x v lost) i in
    subst (λ m. Spec (view d) (unknown h.pa) m) (sym same) (erases_nothing h.pa lost)

Calls-both :
    (d e : Privdata) (os : List Observed)
    → IsValid d
    → Calls d os e
    → (IsValid e) × (Specs (view d) os (view e))
Calls-both d _ _ v stop = (v, stop)
Calls-both d _ _ v (call {e = middle} c last) =
    let (valid, specs) = Calls-both d middle _ v c in
    (Call-IsValid middle _ _ valid last, step specs (Call-Spec middle _ _ valid last))

-- The list of buffers implements the map: for every sequence of allocations and frees, failures
-- included, the map that a client sees makes the same sequence of steps, with the same results, if the
-- kernel hands out memory that is not in use and the counter of ids does not run round.
pub Calls-Specs :
    (d e : Privdata) (os : List Observed) → IsValid d → Calls d os e → Specs (view d) os (view e)
Calls-Specs d e os v c = (Calls-both d e os v c).1
