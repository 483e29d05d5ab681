-- ===== src/Umem/Coverage.antt =====
-- The range of user memory against the pages and the scatterlist of `pcidriver_umem_sgmap`.
use fpga_pcie_drivers.Common.{
  ℕ, zero, suc, ◌+◌, ◌-◌, ◌*◌, ◌/◌, ◌^◌, ◌<◌, ◌≤◌, ◌≡◌, refl, sym, ◌∙◌, ap, ap₂, ◌⊎◌, map, ◌%◌,
  List, [], ◌∷◌, ◌++◌, length, arith, All, inl, inr,
}
use Prim.Native.Nat.add
use native.Mathlib.Nat.{add-zero}
use mathlib.Core.List.{map-append}
use fpga_pcie_drivers.Device.{Page, page_size}
use fpga_pcie_drivers.Umem.Pages.{
  page_offset, nr_pages_of, SgPage, rest_length, first_length, populate_rest, populate,
}

-- The number of pages that `[vma, vma + size)` touches, from the first page's number to the last's.
-- It is what the code computes for every range that is not empty and is shorter than 2^42 bytes.
nr_pages_of_lem :
    (vma size : ℕ)
    → 0 < size
    → size < 2 ^ 42
    → nr_pages_of vma size ≡ (vma + size - 1) / page_size + 1 - vma / page_size
unfolding nr_pages_of
nr_pages_of_lem vma size pos small = omega arith

-- `n` addresses from `a` on
unfoldable pub range : ℕ → ℕ → List ℕ
range a zero = []
range a (suc n) = a ∷ range (a + 1) n

range-add : (a m n : ℕ) → range a (m + n) ≡ range a m ++ range (a + m) n
unfolding range
range-add a zero n = rw (add.zero, add-zero)
range-add a (suc m) n =
    rw (add.suc) (
      ap (λ r. a ∷ r)
        (range-add (a + 1) m n ∙ ap (λ b. range (a + 1) m ++ range b n) (omega arith)))

-- The bytes of memory that a scatterlist stands for, in order: each entry those of its own page frame.
abbrev pub addresses : List SgPage → List ℕ
addresses [] = []
addresses (e ∷ es) = range (e.frame * page_size + e.offset) e.length ++ addresses es

-- the frame of the page number `i`
abbrev pub frame_at : List Page → ℕ → ℕ
frame_at [] i = 0
frame_at (p ∷ ps) zero = p.frame
frame_at (p ∷ ps) (suc i) = frame_at ps i

-- Where the byte at the user's address `a` is in memory, if `ps` are the user's pages from the page number
-- `first` on: at the same place of the page's frame.
abbrev pub located : ℕ → List Page → ℕ → ℕ
located first ps a = frame_at ps (a / page_size - first) * page_size + a % page_size

range-zero : (a : ℕ) → range a 0 ≡ []
unfolding range
range-zero a = refl

map_range :
    (f : ℕ → ℕ) (n a b : ℕ) → ((i : ℕ) → i < n → f (a + i) ≡ b + i) → map f (range a n) ≡ range b n
unfolding range
map_range f zero a b same = refl
map_range f (suc n) a b same =
    ap₂ (λ (x : ℕ) xs. x ∷ xs) (ap f {y = a + 0} (omega arith) ∙ same 0 (omega arith) ∙ omega arith)
      (map_range f n (a + 1) (b + 1)
        (λ i h. ap f {y = a + suc i} (omega arith) ∙ same (suc i) (omega arith) ∙ omega arith))

map_range_same :
    (f g : ℕ → ℕ) (n a : ℕ) → ((i : ℕ) → a ≤ i → f i ≡ g i) → map f (range a n) ≡ map g (range a n)
unfolding range
map_range_same f g zero a same = refl
map_range_same f g (suc n) a same =
    ap₂ (λ (x : ℕ) xs. x ∷ xs) (same a (omega arith))
      (map_range_same f g n (a + 1) (λ i h. same i (omega arith)))

map-range-append :
    (f : ℕ → ℕ) (a m n : ℕ) → map f (range a (m + n)) ≡ map f (range a m) ++ map f (range (a + m) n)
map-range-append f a m n = ap (map f) (range-add a m n) ∙ map-append f (range a m) (range (a + m) n)

-- the first page's part of `size` bytes from `a` on, and the rest from the next page on
step_lem :
    (p : Page) (ps : List Page) (first a size len : ℕ)
    → a / page_size ≡ first
    → a % page_size + len ≤ page_size
    → len ≤ size
    → (len ≡ size) ⊎ (a + len ≡ (first + 1) * page_size)
    → range (p.frame * page_size + a % page_size) len
        ++ map (located (first + 1) ps) (range ((first + 1) * page_size) (size - len))
      ≡ map (located first (p ∷ ps)) (range a size)
step_lem p ps first a size len on within short ends =
    let whole = located first (p ∷ ps) in
    let here : map whole (range a len) ≡ range (p.frame * page_size + a % page_size) len =
      map_range whole len a (p.frame * page_size + a % page_size) (λ i h.
        let start : (a + i) / page_size - first ≡ 0 = omega arith in rw start (omega arith)) in
    let there : map whole (range (a + len) (size - len))
        ≡ map (located (first + 1) ps) (range ((first + 1) * page_size) (size - len)) =
      elim ends [
        | inl all ↦
            let left : size - len ≡ 0 = omega arith in
            rw (left, range-zero (a + len), range-zero ((first + 1) * page_size)) refl
        | inr next ↦ rw next (
            map_range_same whole (located (first + 1) ps) (size - len) ((first + 1) * page_size)
              (λ i h.
                let behind : i / page_size - first ≡ suc (i / page_size - (first + 1)) =
                  omega arith in
                rw behind refl))
      ] in
    ap₂ (λ (xs ys : List ℕ). xs ++ ys) (sym here) (sym there)
    ∙ sym (map-range-append whole a len (size - len))
    ∙ ap (λ n. map whole (range a n)) {x = len + (size - len)} (omega arith)

addresses-populate_rest :
    (count first : ℕ) (ps : List Page)
    → count ≤ page_size * length ps
    → addresses (populate_rest count ps) ≡ map (located first ps) (range (first * page_size) count)
unfolding populate_rest
addresses-populate_rest count first [] h =
    let none_left : count ≡ 0 = omega arith in rw (none_left, range-zero) refl
addresses-populate_rest count first (p ∷ ps) h =
    let len = rest_length count in
    let rest = addresses-populate_rest (count - len) (first + 1) ps (ground arith) in
    let aligned : first * page_size % page_size ≡ 0 = omega arith in
    let ends : (len ≡ count) ⊎ (first * page_size + len ≡ (first + 1) * page_size) = ground arith in
    let step =
      step_lem p ps first (first * page_size) count len (omega arith) (ground arith) (ground arith)
        ends in
    ap₂ (λ (o : ℕ) xs. range (p.frame * page_size + o) len ++ xs) (sym aligned) rest ∙ step

-- The scatterlist that is built over the pages of a range stands for exactly the user's bytes, in
-- order: each entry for those of its own page. The range is not empty and shorter than 2^42 bytes, and
-- there are as many pages as it touches.
pub addresses-populate :
    (vma size : ℕ) (ps : List Page)
    → 0 < size
    → size < 2 ^ 42
    → length ps ≡ nr_pages_of vma size
    → addresses (populate (page_offset vma) size ps)
      ≡ map (located (vma / page_size) ps) (range vma size)
unfolding populate nr_pages_of
addresses-populate vma size [] pos small enough = absurd (omega arith)
addresses-populate vma size (p ∷ ps) pos small enough =
    let first = vma / page_size in
    let len = first_length (page_offset vma) size in
    let rest = addresses-populate_rest (size - len) (first + 1) ps (ground arith) in
    let ends : (len ≡ size) ⊎ (vma + len ≡ (first + 1) * page_size) = ground arith in
    let step = step_lem p ps first vma size len refl (ground arith) (ground arith) ends in
    ap (λ xs. range (p.frame * page_size + vma % page_size) len ++ xs) rest ∙ step

-- Every entry lies within its page.
abbrev pub InPage : SgPage → Type 0
InPage e = e.offset + e.length ≤ page_size

populate_rest-InPage : (count : ℕ) (ps : List Page) → All InPage (populate_rest count ps)
unfolding populate_rest
populate_rest-InPage count [] = tt
populate_rest-InPage count (p ∷ ps) =
    (ground arith, populate_rest-InPage (count - rest_length count) ps)

length-populate_rest : (count : ℕ) (ps : List Page) → length (populate_rest count ps) ≡ length ps
unfolding populate_rest
length-populate_rest count [] = refl
length-populate_rest count (p ∷ ps) = ap suc (length-populate_rest (count - rest_length count) ps)

-- Every entry of the scatterlist lies within one page, and entry and page go together: there are
-- as many entries as pages.
pub populate-InPage :
    (vma size : ℕ) (ps : List Page)
    → All InPage (populate (page_offset vma) size ps)
      × (length (populate (page_offset vma) size ps) ≡ length ps)
unfolding populate
populate-InPage vma size [] = (tt, refl)
populate-InPage vma size (p ∷ ps) =
    ((ground arith, populate_rest-InPage _ ps), ap suc (length-populate_rest _ ps))
