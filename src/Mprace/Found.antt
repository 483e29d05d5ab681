-- ===== src/Mprace/Found.antt =====
-- The descriptors that the loops of `sendDescriptorList` find for a part of a buffer.
use fpga_pcie_drivers.Common.{
  ℕ, suc, ◌+◌, ◌-◌, ◌*◌, ◌^◌, ◌≤◌, ◌<◌, ◌≡◌, ◌∙◌, refl, sym, ap, Bool, true, arith, ◌==◌, ==_iff,
  Bool-cases, inl, inr, drop,
}
use mathlib.Core.Path.{subst}
use fpga_pcie_drivers.Device.{uint}
use fpga_pcie_drivers.Umem.Bytes.{bytes, total}
use fpga_pcie_drivers.Mprace.Descriptor.{control_word}
use fpga_pcie_drivers.Mprace.Send.{
  DescriptorList, Channel, Sent, find_start, find_last, send_found, send_whole, send_part, prepare,
}
use fpga_pcie_drivers.Mprace.Restore.{IsLinked}
use fpga_pcie_drivers.Mprace.Pieces.{pieces}
use fpga_pcie_drivers.Mprace.Loops.{
  IsStart, find_start-IsStart, find_last-fits, find_last-small, find_last_all,
}
use fpga_pcie_drivers.Mprace.Whole.{send_whole-send_found}

-- A list at rest that stands for a buffer of `size` bytes, each descriptor for at least one of them.
pub record IsBuffer (size : ℕ) (l : DescriptorList) : Type 0 where
  pub linked : IsLinked l
  pub filled : (j : ℕ) → j < l.size → 0 < (l.at j).length
  pub covers : total (pieces l.size l 0) ≡ size
  pub small : size < 2 ^ 32

-- What the two loops find.
pub record IsFound (l : DescriptorList) (offset count init skip last rest : ℕ) : Type 0 where
  pub here : init < l.size
  pub ordered : init ≤ last
  pub inside : last < l.size
  pub within : skip ≤ (l.at init).length
  pub fits : rest < 2 ^ 32
  pub loop : find_last (l.size - init) l init skip count init ≡ (last, rest, true)
  pub same :
      drop offset (bytes (pieces l.size l 0)) ≡ drop skip (bytes (pieces (l.size - init) l init))
  pub room : skip + count ≤ total (pieces (l.size - init) l init)

-- and what is sent for it
pub record Found (l : DescriptorList) (buf addr word count offset : ℕ) (c : Channel) (s : Sent)
    : Type 0 where
  pub init : ℕ
  pub skip : ℕ
  pub last : ℕ
  pub rest : ℕ
  pub lem : IsFound l (offset * 4) (count * 4) init skip last rest
  pub sent : s ≡ send_found buf addr word init skip (last, rest, true) l c

module _ (size : ℕ) (l : DescriptorList) (buffer : IsBuffer size l) (buf addr word count offset : ℕ)
    (c : Channel) (some_word : 0 < count) (room : (offset + count) * 4 ≤ size) where
  start :
      (init skip : ℕ)
      → IsStart l.size l 0 (offset * 4) (init, skip)
      → Found l buf addr word count offset c (
          send_found buf addr word init skip
            (find_last (l.size - init) l init skip (count * 4) init)
            l
            c)
  start init skip s =
      let here : init < l.size = omega (arith, s.inside) in
      let most : l.size - init ≡ 0 + l.size - init = omega arith in
      let e = ap (λ n. total (pieces n l init)) most in
      let first : (init == init) ≡ true = ground arith in
      let left : total (pieces (l.size - init) l init) + offset * 4 ≡ size + skip =
        omega (arith, s.left, buffer.covers, e) in
      let (last, rest, loop, low, high) =
        find_last-fits (l.size - init) l init skip (count * 4) init (omega arith)
          (omega (arith, buffer.small)) (omega (arith, buffer.small, s.fewer))
          (λ p. rw first (s.within)) (omega arith) (rw first (omega arith)) in
      record {
        init = init;
        skip = skip;
        last = last;
        rest = rest;
        lem = record {
          here = here;
          ordered = low;
          inside = omega (arith, high);
          within = s.within;
          fits =
              let bound =
                find_last-small (l.size - init) l init skip (count * 4) init
                  (omega (arith, buffer.small)) in
              rw loop at bound;
          loop = loop;
          same = s.same ∙ ap (λ n. drop skip (bytes (pieces n l init))) (sym most);
          room = omega arith;
        };
        sent = rw loop refl;
      }

  part-Found : Found l buf addr word count offset c (send_part buf addr word count offset l c)
  unfolding send_part
  part-Found =
      let some_entry = buffer.linked.some_entry in
      let small = buffer.small in
      let exact : uint (count * 4) ≡ count * 4 = omega arith in
      let exact' : uint (offset * 4) ≡ offset * 4 = omega arith in
      elim (Bool-cases (offset == 0)) [
        | inl none ↦
            let e : offset * 4 ≡ 0 = ground arith in
            rw (none, exact)
              (start 0 0 (record {
                behind = omega arith;
                inside = omega arith;
                within = omega arith;
                fewer = omega arith;
                same =
                    ap (λ k. drop k (bytes (pieces l.size l 0))) e
                    ∙ ap (λ n. bytes (pieces n l 0)) {x = l.size} (omega arith);
                left =
                    let t =
                      ap (λ n. total (pieces n l 0)) {x = 0 + l.size - 0} {y = l.size}
                        (omega arith) in
                    omega (arith, t, e);
              }))
        | inr some_skipped ↦
            rw (some_skipped, exact, exact')
              (start (find_start l.size l (offset * 4) 0 0).0
                (find_start l.size l (offset * 4) 0 0).1
                (subst (λ k. IsStart l.size l 0 k (find_start l.size l (offset * 4) 0 0))
                  (omega arith)
                  (find_start-IsStart l.size l (offset * 4) 0 0 some_entry (omega arith)
                    (omega (arith, buffer.covers)) (omega (arith, buffer.covers)))))
      ]

  whole-Found :
      offset ≡ 0
      → count * 4 ≡ size
      → Found l buf addr word count offset c (send_whole buf addr word l c)
  whole-Found none all =
      let some_entry = buffer.linked.some_entry in
      let covers = buffer.covers in
      let covered : total (pieces (suc (l.size - 1)) l 0) ≡ size =
        ap (λ n. total (pieces n l 0)) {x = suc (l.size - 1)} (omega arith) ∙ covers in
      record {
        init = 0;
        skip = 0;
        last = l.size - 1;
        rest = (l.at (l.size - 1)).length;
        lem = record {
          here = some_entry;
          ordered = omega arith;
          inside = omega arith;
          within = omega arith;
          fits = (buffer.linked.words (l.size - 1) (omega arith)).length;
          loop =
              ap (λ n. find_last n l 0 0 (count * 4) 0) {y = suc (l.size - 1)} (omega arith)
              ∙ ap (λ k. find_last (suc (l.size - 1)) l 0 0 k 0)
                  {y = total (pieces (suc (l.size - 1)) l 0)} (omega (arith, covered))
              ∙ find_last_all (l.size - 1) l 0 (omega (arith, covered, buffer.small))
                  (λ j h. buffer.filled j (omega (arith, h)))
              ∙ ap (λ k. (k, (l.at k).length, true)) {x = 0 + (l.size - 1)} (omega arith);
          same =
              ap (λ k. drop k (bytes (pieces l.size l 0))) {x = offset * 4} {y = 0}
                (omega (arith, none))
              ∙ ap (λ n. bytes (pieces n l 0)) {x = l.size} (omega arith);
          room =
              let t = ap (λ n. total (pieces n l 0)) {x = l.size - 0} {y = l.size} (omega arith) in
              omega (arith, t);
        };
        sent = send_whole-send_found l buf addr word c buffer.linked;
      }

pub prepare-Found :
    (size : ℕ) (l : DescriptorList) (buf bar addr count offset : ℕ) (inc : Bool) (c : Channel)
    → IsBuffer size l
    → 0 < count
    → (offset + count) * 4 ≤ size
    → Found l buf addr
        (control_word bar inc)
        count
        offset
        c
        (prepare buf size bar addr count offset inc l c)
unfolding prepare
prepare-Found size l buf bar addr count offset inc c buffer pos room =
    let word = control_word bar inc in
    let small = buffer.small in
    let exact : uint (count * 4) ≡ count * 4 = omega arith in
    let part = part-Found size l buffer buf addr word count offset c pos room in
    rw exact (elim (Bool-cases (offset == 0)) [
      | inl none ↦ elim (Bool-cases (count * 4 == size)) [
        | inl all ↦
            rw (none, all)
              (whole-Found size l buffer buf addr word count offset c pos room ((==_iff _ _).0 none)
                ((==_iff _ _).0 all))
        | inr less ↦ rw (none, less) part
      ]
      | inr skipped ↦ rw skipped part
    ])
