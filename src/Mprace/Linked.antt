-- ===== src/Mprace/Linked.antt =====
-- Where the descriptors of a new list lie on the bus.
use fpga_pcie_drivers.Common.{
  ℕ, zero, suc, ◌+◌, ◌*◌, ◌/◌, ◌%◌, ◌≤◌, ◌<◌, ◌≡◌, ◌∙◌, refl, ap, ap₂, false, arith, ◌==◌, ==_iff,
  leb, if◌then◌else◌, Bool-cases, inl, inr,
}
use fpga_pcie_drivers.Device.{SgEntry, ulong}
use fpga_pcie_drivers.Cpp.Mapping.{UserMemory}
use fpga_pcie_drivers.Mprace.Descriptor.{Descriptor}
use fpga_pcie_drivers.Mprace.Send.{DescriptorList, change, at-change, size-change}
use fpga_pcie_drivers.Mprace.Fill.{Block, entry_address, nr_blocks, init, link, new_list}

link-size :
    (rounds : ℕ) (blocks : ℕ → Block) (i index count : ℕ) (l : DescriptorList)
    → (link rounds blocks i index count l).size ≡ l.size
unfolding link
link-size zero blocks i index count l = refl
link-size (suc rounds) blocks i index count l =
    let full = leb (blocks index).size count in
    let x = if full then index + 1 else index in
    let c = if full then 0 else count in
    let f = λ (d : Descriptor). record d { pa = ulong ((blocks x).pa + c * 64) } in
    link-size rounds blocks (i + 1) x (c + 1) (change i f l) ∙ size-change i f l

link-before :
    (rounds : ℕ) (blocks : ℕ → Block) (i index count j : ℕ) (l : DescriptorList)
    → j < i
    → (link rounds blocks i index count l).at j ≡ l.at j
unfolding link
link-before zero blocks i index count j l h = refl
link-before (suc rounds) blocks i index count j l h =
    let full = leb (blocks index).size count in
    let x = if full then index + 1 else index in
    let c = if full then 0 else count in
    let f = λ (d : Descriptor). record d { pa = ulong ((blocks x).pa + c * 64) } in
    let other : (j == i) ≡ false = ground arith in
    link-before rounds blocks (i + 1) x (c + 1) j (change i f l) (omega arith)
    ∙ at-change i f l j
    ∙ rw other refl

module _ (beyond : SgEntry) (n : ℕ) (mapping : UserMemory) where
  abbrev blocks : ℕ → Block
  blocks = init beyond n mapping

  -- where the descriptor `j` lies
  abbrev place : ℕ → ℕ
  place j = ulong (entry_address beyond mapping (j / 64) + j % 64 * 64)

  full_block :
      (index count : ℕ)
      → index * 64 + count < n
      → count ≤ 64
      → leb (blocks index).size count ≡ (count == 64)
  unfolding init nr_blocks
  full_block index count inside few = ground arith

  next_place :
      (index count i : ℕ)
      → index * 64 + count ≡ i
      → i < n
      → count ≤ 64
      → ((if leb (blocks index).size count then index + 1 else index) ≡ i / 64)
        × ((if leb (blocks index).size count then 0 else count) ≡ i % 64)
  next_place index count i same inside few =
      rw (full_block index count (omega arith) few) (ground arith)

  link-step :
      (rounds index count i : ℕ) (l : DescriptorList)
      → index * 64 + count ≡ i
      → i < n
      → count ≤ 64
      → link (suc rounds) blocks i index count l
        ≡ link rounds blocks
            (i + 1)
            (i / 64)
            (i % 64 + 1)
            (change i (λ d. record d { pa = place i }) l)
  unfolding link init
  link-step rounds index count i l same inside few =
      let (e, f) = next_place index count i same inside few in
      ap₂
        (λ x c.
          link rounds blocks (i + 1) x (c + 1)
            (change i (λ d. record d { pa = ulong ((blocks x).pa + c * 64) }) l))
        e f

  link-pa :
      (rounds i index count j : ℕ) (l : DescriptorList)
      → index * 64 + count ≡ i
      → count ≤ 64
      → i + rounds ≤ n
      → i ≤ j
      → j < i + rounds
      → (link rounds blocks i index count l).at j ≡ record (l.at j) { pa = place j }
  link-pa zero i index count j l same few room low high = absurd (omega arith)
  link-pa (suc rounds) i index count j l same few room low high =
      let g = λ (d : Descriptor). record d { pa = place i } in
      let at_other : (j == i) ≡ false → (change i g l).at j ≡ l.at j =
        λ further. at-change i g l j ∙ rw further refl in
      rw (link-step rounds index count i l same (omega arith) few) (elim (Bool-cases (j == i)) [
        | inl here ↦
            let q : j ≡ i = (==_iff _ _).0 here in
            link-before rounds blocks (i + 1) (i / 64) (i % 64 + 1) j (change i g l) (omega arith)
            ∙ at-change i g l j
            ∙ rw (here, q) refl
        | inr further ↦
            link-pa rounds (i + 1) (i / 64) (i % 64 + 1) j (change i g l) (omega arith)
              (omega arith) (omega arith) (ground arith) (omega arith)
            ∙ ap (λ (d : Descriptor). record d { pa = place j }) (at_other further)
      ])

-- The blocks for `n` descriptors are the pages of their memory. Then the descriptor `j` of the new list is at
-- the place `j % 64` of the page `j / 64`, also in a last page that is not full.
pub pa-new_list :
    (beyond : SgEntry) (junk : ℕ → Descriptor) (n : ℕ) (mapping : UserMemory) (j : ℕ)
    → j < n
    → (new_list beyond junk n mapping).at j
      ≡ record (junk j) { pa = ulong (entry_address beyond mapping (j / 64) + j % 64 * 64) }
unfolding new_list
pa-new_list beyond junk n mapping j inside =
    link-pa beyond n mapping n 0 0 0 j (record { size = n; at = junk }) refl (omega arith)
      (omega arith) (omega arith) (omega arith)

pub size-new_list :
    (beyond : SgEntry) (junk : ℕ → Descriptor) (n : ℕ) (mapping : UserMemory)
    → (new_list beyond junk n mapping).size ≡ n
unfolding new_list
size-new_list beyond junk n mapping =
    link-size n (init beyond n mapping) 0 0 0 (record { size = n; at = junk })
