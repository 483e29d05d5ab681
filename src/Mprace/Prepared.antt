-- ===== src/Mprace/Prepared.antt =====
-- What `sendDescriptorList` makes ready for any part of a buffer, and what `restoreSavedData` leaves.
use fpga_pcie_drivers.Common.{
  ℕ, suc, ◌+◌, ◌-◌, ◌*◌, ◌≤◌, ◌<◌, ◌≡◌, ◌∙◌, refl, sym, ap, Bool, true, List, arith, take, drop,
}
use mathlib.Core.Path.{subst}
use fpga_pcie_drivers.Device.{SgEntry}
use fpga_pcie_drivers.Umem.Bytes.{bytes}
use fpga_pcie_drivers.Mprace.Descriptor.{control_word}
use fpga_pcie_drivers.Mprace.Control.{is_last-control_word}
use fpga_pcie_drivers.Mprace.Send.{
  DescriptorList, Channel, find_last, send_found, prepare, restore_saved_data,
}
use fpga_pcie_drivers.Mprace.Restore.{restore-send_found}
use fpga_pcie_drivers.Mprace.Pieces.{pieces, cut, bytes-cut}
use fpga_pcie_drivers.Mprace.Found.{IsBuffer, prepare-Found}
use fpga_pcie_drivers.Mprace.Chain.{Chain, IsWord}
use fpga_pcie_drivers.Mprace.Ready.{head-Chain}

-- The descriptors of a buffer are at rest and stand for its `size` bytes, and a part of at least one word
-- lies inside. Then what is sent starts a chain of descriptors that ends, and its pieces are exactly the
-- bytes of the part, in order, whether it is the whole buffer or not.
pub bytes-prepare :
    (size : ℕ) (l : DescriptorList) (buf bar addr count offset : ℕ) (inc : Bool) (c : Channel)
    → IsBuffer size l
    → 0 < count
    → (offset + count) * 4 ≤ size
    → (es : List SgEntry) × Chain
        (prepare buf size bar addr count offset inc l c).list
        (prepare buf size bar addr count offset inc l c).first
        es
      × (bytes es ≡ take (count * 4) (drop (offset * 4) (bytes (pieces l.size l 0))))
bytes-prepare size l buf bar addr count offset inc c buffer pos room =
    let f = prepare-Found size l buf bar addr count offset inc c buffer pos room in
    let g = f.lem in
    let (plain, marked, first, only) = is_last-control_word bar inc in
    let word : IsWord (control_word bar inc) = record {
      plain = plain;
      marked = marked;
      first = first;
      only = only;
    } in
    let rounds : suc (l.size - f.init - 1) ≡ l.size - f.init = omega (arith, g.here) in
    let n = l.size - f.init - 1 in
    let parts = cut (l.size - f.init) l f.init f.skip (count * 4) in
    let loop =
      subst (λ k. find_last k l f.init f.skip (count * 4) f.init ≡ (f.last, f.rest, true))
        (sym rounds) g.loop in
    let chain =
      head-Chain l buf addr (control_word bar inc) f.init f.skip f.last f.rest c n (count * 4)
        buffer.linked word g.here g.inside g.fits (omega (arith, buffer.small)) g.within loop in
    let same =
      bytes-cut (l.size - f.init) l f.init f.skip (count * 4) (λ p. g.within) g.room
      ∙ ap (take (count * 4)) (sym g.same) in
    subst
      (λ s.
        (es : List SgEntry) × Chain s.list s.first es
        × (bytes es ≡ take (count * 4) (drop (offset * 4) (bytes (pieces l.size l 0)))))
      (sym f.sent)
      (
        parts,
        subst
            (λ k.
              Chain
                (send_found buf addr (control_word bar inc) f.init f.skip (f.last, f.rest, true) l
                  c).list
                (send_found buf addr (control_word bar inc) f.init f.skip (f.last, f.rest, true) l
                  c).first
                (cut k l f.init f.skip (count * 4)))
            rounds chain,
        same,
      )

-- The descriptors of a buffer are at rest and stand for its `size` bytes, and a part of at least one word
-- lies inside. Then sending it saves what `restoreSavedData` needs to bring every descriptor of the buffer
-- back, and that it is this buffer.
pub restore-prepare :
    (size : ℕ) (l : DescriptorList) (buf bar addr count offset : ℕ) (inc : Bool) (c : Channel)
    (j : ℕ)
    → IsBuffer size l
    → 0 < count
    → (offset + count) * 4 ≤ size
    → j < l.size
    → ((prepare buf size bar addr count offset inc l c).channel.saved ≡ true)
      × ((prepare buf size bar addr count offset inc l c).channel.saved_data.buf ≡ buf)
      × ((restore_saved_data
              (prepare buf size bar addr count offset inc l c).channel.saved_data
              (prepare buf size bar addr count offset inc l c).list).at
            j
          ≡ l.at j)
restore-prepare size l buf bar addr count offset inc c j buffer pos room here =
    let f = prepare-Found size l buf bar addr count offset inc c buffer pos room in
    let g = f.lem in
    let word = control_word bar inc in
    subst
      (λ s.
        (s.channel.saved ≡ true)
        × (s.channel.saved_data.buf ≡ buf)
        × ((restore_saved_data s.channel.saved_data s.list).at j ≡ l.at j))
      (sym f.sent)
      (
        unfold send_found in refl,
        unfold send_found in refl,
        restore-send_found l buf addr word f.init f.last f.skip f.rest c j buffer.linked g.ordered
            g.inside g.within here,
      )
