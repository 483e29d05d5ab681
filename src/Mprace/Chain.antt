-- ===== src/Mprace/Chain.antt =====
-- What the board transfers when it follows the descriptors that `sendDescriptorList` sends.
use fpga_pcie_drivers.Common.{
  ℕ, zero, suc, ◌+◌, ◌-◌, ◌^◌, ◌≤◌, ◌<◌, ◌≡◌, ◌≢◌, ◌∙◌, sym, ap, true, false, List, [], ◌∷◌, arith,
  leb, ◌==◌, Bool-cases, inl, inr,
}
use Prim.Native.Nat.{bit_or}
use mathlib.Core.Path.{subst}
use fpga_pcie_drivers.Device.{SgEntry, uint, ulong}
use fpga_pcie_drivers.Mprace.Descriptor.{
  Descriptor, host_address, next_address, is_last, ctrl_last, first_word,
}
use fpga_pcie_drivers.Mprace.Send.{DescriptorList, find_last, usable}
use fpga_pcie_drivers.Mprace.Restore.{IsLinked}
use fpga_pcie_drivers.Mprace.Pieces.{piece, cut}
use fpga_pcie_drivers.Mprace.Loops.{find_last_goes_on, find_last_ends, find_last-ge}

-- From a descriptor, the pieces up to the first with CTRL_LAST; behind any other comes the one that lies at
-- the address that it gives.
pub data Chain (l : DescriptorList) : Descriptor → List SgEntry → Type 0 where
  ends : (d : Descriptor) → is_last d.control ≡ true → Chain l d (piece d ∷ [])
  follows :
      (d : Descriptor) (j : ℕ) (es : List SgEntry)
      → is_last d.control ≡ false
      → j < l.size
      → (l.at j).pa ≡ next_address d
      → Chain l (l.at j) es
      → Chain l d (piece d ∷ es)

-- The control words that a transfer uses.
pub record IsWord (word : ℕ) : Type 0 where
  pub plain : is_last (uint word) ≡ false
  pub marked : is_last (uint (bit_or word ctrl_last)) ≡ true
  pub first : is_last (uint (first_word word false)) ≡ false
  pub only : is_last (uint (first_word word true)) ≡ true

-- A list `m` that was made ready from `l`, behind the first descriptor and up to the last one.
pub record IsReady (l m : DescriptorList) (init last count : ℕ) : Type 0 where
  pub size : m.size ≡ l.size
  pub address : (j : ℕ) → (m.at j).pa ≡ (l.at j).pa
  pub middle :
      (j : ℕ)
      → init < j
      → j < last
      → (piece (m.at j) ≡ piece (l.at j))
        × (is_last (m.at j).control ≡ false)
        × (next_address (m.at j) ≡ next_address (l.at j))
  pub finish :
      init < last
      → ((m.at last).length ≡ count)
        × (host_address (m.at last) ≡ host_address (l.at last))
        × (is_last (m.at last).control ≡ true)

pub linked_next :
    (l : DescriptorList) (j : ℕ)
    → IsLinked l
    → j + 1 < l.size
    → (l.at (j + 1)).pa ≡ next_address (l.at j)
linked_next l j linked here =
    let w = linked.words (j + 1) here in
    omega (arith, linked.next_h j here, linked.next_l j here, w.address)

not_found :
    (l : DescriptorList) (init skip count i last rest : ℕ)
    → find_last 0 l init skip count i ≢ (last, rest, true)
unfolding find_last
not_found l init skip count i last rest e = cc

pub same_piece :
    (d e : Descriptor) (skip count : ℕ)
    → host_address d ≡ ulong (host_address e + skip)
    → d.length ≡ count
    → piece d ≡ record { addr = ulong (host_address e + skip); size = count }
same_piece d e skip count a n = ground arith

-- the chain from a descriptor behind the first one
pub tail-Chain :
    (n : ℕ) (l m : DescriptorList) (init skip count i last rest : ℕ)
    → IsLinked l
    → IsReady l m init last rest
    → init < i
    → i ≤ last
    → last < l.size
    → count < 2 ^ 32
    → find_last n l init skip count i ≡ (last, rest, true)
    → Chain m (m.at i) (cut n l i 0 count)
unfolding cut
tail-Chain zero l m init skip count i last rest linked ready behind lower inside small found =
    absurd (not_found l init skip count i last rest found)
tail-Chain (suc n) l m init skip count i last rest linked ready behind lower inside small found =
    let len = (l.at i).length in
    let later : (i == init) ≡ false = ground arith in
    let taken : usable l init skip i ≡ len - 0 = unfold usable in rw later (omega arith) in
    elim (Bool-cases (leb count (len - 0))) [
      | inl fits ↦
          let ended = sym (find_last_ends n l init skip count i (len - 0) taken fits) ∙ found in
          let here : i ≡ last = ap (λ r. r.0) ended in
          let all : count ≡ rest = ap (λ r. r.1) ended in
          let f = ready.finish (omega (arith, behind, lower)) in
          let marked : is_last (m.at i).control ≡ true = rw here f.2 in
          rw fits (
            subst (λ es. Chain m (m.at i) es)
              (ap (λ e. e ∷ [])
                (same_piece (m.at i) (l.at i) 0 count (rw here (f.1 ∙ omega arith))
                  (rw here f.0 ∙ sym all)))
              (ends (m.at i) marked))
      | inr more ↦
          let goes_on =
            sym (find_last_goes_on n l init skip count i (len - 0) taken more small) ∙ found in
          let further = find_last-ge n l init skip (count - (len - 0)) (i + 1) in
          let before : i + 1 ≤ last = subst (λ r. i + 1 ≤ r.0) goes_on further in
          let (same, unmarked, next) = ready.middle i behind (omega (arith, before)) in
          let at = ready.address (i + 1) ∙ linked_next l i linked (omega arith) ∙ sym next in
          rw more (
            subst (λ e. Chain m (m.at i) (e ∷ cut n l (i + 1) 0 (count - (len - 0))))
              (same ∙ same_piece (l.at i) (l.at i) 0 (len - 0) (omega arith) (omega arith))
              (follows (m.at i) (i + 1) (cut n l (i + 1) 0 (count - (len - 0))) unmarked
                (rw (ready.size) (omega arith)) at
                (tail-Chain n l m init skip (count - (len - 0)) (i + 1) last rest linked ready
                  (omega arith) before inside (omega arith) goes_on)))
    ]
