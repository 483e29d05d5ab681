-- ===== src/Mprace/Ready.antt =====
-- The list that `sendDescriptorList` makes ready, and the chain that starts with the descriptor that it
-- sends.
use fpga_pcie_drivers.Common.{
  ℕ, suc, ◌+◌, ◌-◌, ◌^◌, ◌≤◌, ◌<◌, ◌≡◌, ◌∙◌, refl, sym, ap, true, false, [], ◌∷◌, arith, leb, ◌==◌,
  Bool-cases, inl, inr,
}
use Prim.Native.Nat.{bit_or}
use mathlib.Core.Path.{subst}
use fpga_pcie_drivers.Device.{uint, ulong}
use fpga_pcie_drivers.Mprace.Descriptor.{Descriptor, host_address, next_address, is_last, ctrl_last}
use fpga_pcie_drivers.Mprace.Send.{
  DescriptorList, Channel, find_last, usable, send_found, end_list, second_word,
}
use fpga_pcie_drivers.Mprace.Restore.{IsLinked, reads}
use fpga_pcie_drivers.Mprace.Pieces.{piece, cut}
use fpga_pcie_drivers.Mprace.Loops.{find_last_goes_on, find_last_ends, find_last-ge}
use fpga_pcie_drivers.Mprace.Chain.{
  Chain, ends, follows, IsWord, IsReady, tail-Chain, same_piece, linked_next,
}

module _ (l : DescriptorList) (buf addr word init skip last rest : ℕ) (c : Channel) where
  abbrev ready : DescriptorList
  ready = (send_found buf addr word init skip (last, rest, true) l c).list

  ready_middle :
      (j : ℕ)
      → (j == init) ≡ false
      → (j == last) ≡ false
      → is_last (uint word) ≡ false
      → (l.at j).control ≡ 0
      → (piece (ready.at j) ≡ piece (l.at j))
        × (is_last (ready.at j).control ≡ false)
        × (next_address (ready.at j) ≡ next_address (l.at j))
  unfolding send_found end_list second_word
  ready_middle j a b plain idle = simp (reads, a, b) (ground arith)

  ready_finish :
      (last == init) ≡ false
      → (last == last) ≡ true
      → init < last
      → rest < 2 ^ 32
      → is_last (uint (bit_or word ctrl_last)) ≡ true
      → ((ready.at last).length ≡ rest)
        × (host_address (ready.at last) ≡ host_address (l.at last))
        × (is_last (ready.at last).control ≡ true)
  unfolding send_found end_list second_word
  ready_finish a b between small marked = simp (reads, a, b) (ground arith)

  ready_size : ready.size ≡ l.size
  unfolding send_found end_list second_word
  ready_size = simp reads refl

  ready_address : (j : ℕ) → (ready.at j).pa ≡ (l.at j).pa
  unfolding send_found end_list second_word
  ready_address j = simp reads (ground arith)

  send_found-IsReady :
      IsLinked l → IsWord word → last < l.size → rest < 2 ^ 32 → IsReady l ready init last rest
  send_found-IsReady linked w inside small = record {
    size = ready_size;
    address = ready_address;
    middle = λ j behind before.
        ready_middle j (ground arith) (ground arith) w.plain (linked.idle j (omega arith));
    finish = λ ordered. ready_finish (ground arith) (ground arith) ordered small w.marked;
  }

  abbrev first : Descriptor
  first = (send_found buf addr word init skip (last, rest, true) l c).first

  start_only :
      (init == last) ≡ true
      → (init == init) ≡ true
      → (init == init + 1) ≡ false
      → rest < 2 ^ 32
      → (host_address (ready.at init) ≡ ulong (host_address (l.at init) + skip))
        × ((ready.at init).length ≡ rest)
  unfolding send_found end_list second_word
  start_only a b e small = simp (reads, a, b, e) (ground arith)

  start_more :
      (init == last) ≡ false
      → (init == init) ≡ true
      → (init == init + 1) ≡ false
      → (l.at init).length < 2 ^ 32
      → skip ≤ (l.at init).length
      → (host_address (ready.at init) ≡ ulong (host_address (l.at init) + skip))
        × ((ready.at init).length ≡ (l.at init).length - skip)
        × (next_address (ready.at init) ≡ next_address (l.at init))
  unfolding send_found end_list second_word
  start_more a b e small within = simp (reads, a, b, e) (ground arith)

  first_only :
      (init == last) ≡ true
      → (init == init) ≡ true
      → (init == init + 1) ≡ false
      → rest < 2 ^ 32
      → IsWord word
      → (host_address first ≡ ulong (host_address (l.at init) + skip))
        × (first.length ≡ rest)
        × (is_last first.control ≡ true)
  unfolding send_found
  first_only a b e small w = let (h, n) = start_only a b e small in (h, n, rw a (w.only))

  first_more :
      (init == last) ≡ false
      → (init == init) ≡ true
      → (init == init + 1) ≡ false
      → (l.at init).length < 2 ^ 32
      → skip ≤ (l.at init).length
      → IsWord word
      → (host_address first ≡ ulong (host_address (l.at init) + skip))
        × (first.length ≡ (l.at init).length - skip)
        × (is_last first.control ≡ false)
        × (next_address first ≡ next_address (l.at init))
  unfolding send_found
  first_more a b e small within w =
      let (h, n, next) = start_more a b e small within in (h, n, rw a (w.first), next)

  -- The chain that starts with the descriptor that is sent has the pieces that are cut out.
  pub head-Chain :
      (n count : ℕ)
      → IsLinked l
      → IsWord word
      → init < l.size
      → last < l.size
      → rest < 2 ^ 32
      → count < 2 ^ 32
      → skip ≤ (l.at init).length
      → find_last (suc n) l init skip count init ≡ (last, rest, true)
      → Chain ready first (cut (suc n) l init skip count)
  unfolding cut
  head-Chain n count linked w here inside fits small within found =
      let len = (l.at init).length in
      let bound = (linked.words init here).length in
      let made = send_found-IsReady linked w inside fits in
      let taken : usable l init skip init ≡ len - skip = unfold usable in ground arith in
      elim (Bool-cases (leb count (len - skip))) [
        | inl enough ↦
            let ended =
              sym (find_last_ends n l init skip count init (len - skip) taken enough) ∙ found in
            let same : init ≡ last = ap (λ r. r.0) ended in
            let all : count ≡ rest = ap (λ r. r.1) ended in
            let (a, size, marked) =
              first_only (ground arith) (ground arith) (ground arith) fits w in
            rw enough (
              subst (λ es. Chain ready first es)
                (ap (λ e. e ∷ []) (same_piece first (l.at init) skip count a (size ∙ sym all)))
                (ends first marked))
        | inr more ↦
            let goes_on =
              sym (find_last_goes_on n l init skip count init (len - skip) taken more small)
              ∙ found in
            let further = find_last-ge n l init skip (count - (len - skip)) (init + 1) in
            let before : init + 1 ≤ last = subst (λ r. init + 1 ≤ r.0) goes_on further in
            let (a, size, unmarked, next) =
              first_more (ground arith) (ground arith) (ground arith) bound within w in
            let at = made.address (init + 1) ∙ linked_next l init linked (omega arith) ∙ sym next in
            let others = cut n l (init + 1) 0 (count - (len - skip)) in
            rw more (
              subst (λ e. Chain ready first (e ∷ others))
                (same_piece first (l.at init) skip (len - skip) a size)
                (follows first (init + 1) others unmarked (rw (made.size) (omega arith)) at (
                  tail-Chain n l ready init skip (count - (len - skip)) (init + 1) last rest linked
                    made (omega arith) before inside (omega arith) goes_on)))
      ]
