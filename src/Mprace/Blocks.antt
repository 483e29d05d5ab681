-- ===== src/Mprace/Blocks.antt =====
-- Blocks that `writeBlock` of ABB.cpp writes, against writing word by word.
use fpga_pcie_drivers.Common.{
  ℕ, ◌+◌, ◌-◌, ◌^◌, ◌≤◌, ◌<◌, ◌≡◌, ◌∙◌, refl, sym, ap, ap₂, true, false, Option, none, some, List,
  [], ◌∷◌, ◌++◌, ltb, leb, length, All, arith,
}
use mathlib.Core.Path.{subst}
use fpga_pcie_drivers.Device.{uint}
use fpga_pcie_drivers.Mprace.Machine.{address_out_of_range}
use fpga_pcie_drivers.Mprace.Abb.{
  mem, BarAccess, store, load, Abb, Accessed, write, stores, block_start, write_block,
}

-- one access behind another, if it does not throw
then_write : Accessed → Accessed → Accessed
then_write (none, xs) (e, ys) = (e, xs ++ ys)
then_write (some e, xs) rest = (some e, xs)

-- `write` for each word of `xs`, to addresses in a row
pub writes : Abb → ℕ → List ℕ → Accessed
writes b address [] = (none, [])
writes b address (x ∷ xs) = then_write (write b address x) (writes b (address + 1) xs)

writes-stores :
    (b : Abb) (address : ℕ) (xs : List ℕ)
    → address + length xs ≤ b.mem_size
    → writes b address xs ≡ (none, stores true address xs)
unfolding writes stores
writes-stores b address [] room = refl
writes-stores b address (x ∷ xs) room =
    let inside : leb b.mem_size address ≡ false = ground arith in
    let one : write b address x ≡ (none, store mem address x ∷ []) =
      unfold write in rw inside refl in
    ap₂ then_write one (writes-stores b (address + 1) xs (omega arith)) ∙ unfold then_write in refl

write_block_started :
    (b : Abb) (address i : ℕ) (xs : List ℕ)
    → block_start b address (length xs) true ≡ some i
    → write_block b address xs true ≡ (none, stores true i xs)
unfolding write_block
write_block_started b address i xs e =
    ap
      (λ (s : Option ℕ). elim s [
        | none ↦ (some address_out_of_range, [])
        | some k ↦ (none, stores true k xs)
      ])
      e

-- The memory has fewer than 2^32 words, and a block of words in a row ends before the last one. Then
-- `writeBlock` does not throw, and stores the same words at the same addresses in the same order as
-- `write` for one word after another.
pub write_block-writes :
    (b : Abb) (address : ℕ) (xs : List ℕ)
    → b.mem_size < 2 ^ 32
    → address + length xs < b.mem_size
    → (write_block b address xs true ≡ writes b address xs)
      × ((write_block b address xs true).0 ≡ none)
write_block-writes b address xs small room =
    let started : block_start b address (length xs) true ≡ some address =
      unfold block_start in
      let first : ltb address b.mem_size ≡ true = ground arith in
      let exact : uint (address + length xs) ≡ address + length xs = omega arith in
      let last : ltb (address + length xs) b.mem_size ≡ true = ground arith in
      rw (exact, first, last) refl in
    let w = write_block_started b address address xs started in
    (w ∙ sym (writes-stores b address xs (omega arith)), ap (λ (a : Accessed). a.0) w)

-- a store that is not in the memory
abbrev pub IsPast : Abb → BarAccess → Type 0
IsPast b (store area i x) = b.mem_size ≤ i
IsPast b (load area i) = b.mem_size ≤ i

stores-IsPast : (b : Abb) (i : ℕ) (xs : List ℕ) → b.mem_size ≤ i → All (IsPast b) (stores true i xs)
unfolding stores
stores-IsPast b i [] past = tt
stores-IsPast b i (x ∷ xs) past = (past, stores-IsPast b (i + 1) xs (omega arith))

-- The board has a FIFO, the sizes of memory and FIFO are together less than 2^32 words, that of the memory
-- less than 2^31, and a block of at least one word in a row ends with the last word of the memory. Then
-- `write` word by word stores all of it, and does not throw. `writeBlock` does not throw either, but
-- all that it stores is past the end of the memory.
pub write_block-IsPast :
    (b : Abb) (address : ℕ) (xs : List ℕ)
    → 0 < b.fifo_size
    → b.mem_size + b.fifo_size < 2 ^ 32
    → 0 < length xs
    → address + length xs ≡ b.mem_size
    → b.mem_size < 2 ^ 31
    → ((writes b address xs).0 ≡ none)
      × ((write_block b address xs true).0 ≡ none)
      × All (IsPast b) (write_block b address xs true).1
write_block-IsPast b address xs some_fifo small some_word ends half =
    let i = uint (address + 2 ^ 32 - b.mem_size) in
    let started : block_start b address (length xs) true ≡ some i =
      unfold block_start in
      let first : ltb address b.mem_size ≡ true = ground arith in
      let exact : uint (address + length xs) ≡ address + length xs = omega arith in
      let last : ltb (address + length xs) b.mem_size ≡ false = ground arith in
      let exact' : uint (b.mem_size + b.fifo_size) ≡ b.mem_size + b.fifo_size = omega arith in
      let first' : ltb address (b.mem_size + b.fifo_size) ≡ true = ground arith in
      let last' : ltb (address + length xs) (b.mem_size + b.fifo_size) ≡ true = ground arith in
      rw (exact, exact', first, last, first', last') refl in
    let w = write_block_started b address i xs started in
    (
      ap (λ (a : Accessed). a.0) (writes-stores b address xs (omega arith)),
      ap (λ (a : Accessed). a.0) w,
      subst (λ (a : Accessed). All (IsPast b) a.1) (sym w) (stores-IsPast b i xs (omega arith)),
    )
