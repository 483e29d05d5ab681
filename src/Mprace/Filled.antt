-- ===== src/Mprace/Filled.antt =====
-- The list that a user buffer gets.
use fpga_pcie_drivers.Common.{
  ℕ, zero, suc, ◌+◌, ◌-◌, ◌^◌, ◌≤◌, ◌<◌, ◌≡◌, ◌∙◌, refl, some, sym, ap, ap₂, true, false, arith,
  ◌==◌, ==_iff, if◌then◌else◌, Bool-cases, inl, inr, List, [], ◌∷◌, All, get_or, length,
}
use mathlib.Core.Path.{subst}
use fpga_pcie_drivers.Device.{SgEntry, uint}
use fpga_pcie_drivers.Cpp.Mapping.{UserMemory}
use fpga_pcie_drivers.Umem.Bytes.{total, IsBus}
use fpga_pcie_drivers.Mprace.Descriptor.{Descriptor, high, low, host_address}
use fpga_pcie_drivers.Mprace.Send.{DescriptorList, change, at-change, size-change}
use fpga_pcie_drivers.Mprace.Restore.{IsWords, IsLinked}
use fpga_pcie_drivers.Mprace.Pieces.{piece, pieces}
use fpga_pcie_drivers.Mprace.Found.{IsBuffer}
use fpga_pcie_drivers.Mprace.Fill.{
  entry_address, entry_size, filled, fill_user, new_list, fill_descriptor_list,
}
use fpga_pcie_drivers.Mprace.Machine.{user}
use fpga_pcie_drivers.Mprace.Linked.{size-new_list, pa-new_list}

module _ (beyond : SgEntry) (u : UserMemory) where
  -- the address of the descriptor behind `i`
  abbrev next_of : DescriptorList → ℕ → ℕ
  next_of l i = if i == u.nents - 1 then 0 else (l.at (i + 1)).pa

  abbrev entry_at : DescriptorList → ℕ → Descriptor → Descriptor
  entry_at l i = filled (entry_address beyond u i) (entry_size beyond u i) (next_of l i)

  fill_user-size :
      (rounds i : ℕ) (l : DescriptorList) → (fill_user rounds beyond u i l).size ≡ l.size
  unfolding fill_user
  fill_user-size zero i l = refl
  fill_user-size (suc rounds) i l =
      fill_user-size rounds (i + 1) (change i (entry_at l i) l) ∙ size-change i (entry_at l i) l

  fill_user-before :
      (rounds i j : ℕ) (l : DescriptorList) → j < i → (fill_user rounds beyond u i l).at j ≡ l.at j
  unfolding fill_user
  fill_user-before zero i j l h = refl
  fill_user-before (suc rounds) i j l h =
      let other : (j == i) ≡ false = ground arith in
      fill_user-before rounds (i + 1) j (change i (entry_at l i) l) (omega arith)
      ∙ at-change i (entry_at l i) l j
      ∙ rw other refl

  fill_user-at :
      (rounds i j : ℕ) (l : DescriptorList)
      → i ≤ j
      → j < i + rounds
      → (fill_user rounds beyond u i l).at j ≡ entry_at l j (l.at j)
  unfolding fill_user
  fill_user-at zero i j l low high = absurd (omega arith)
  fill_user-at (suc rounds) i j l low high =
      let m = change i (entry_at l i) l in
      elim (Bool-cases (j == i)) [
        | inl here ↦
            let q : j ≡ i = (==_iff _ _).0 here in
            fill_user-before rounds (i + 1) j m (omega arith)
            ∙ at-change i (entry_at l i) l j
            ∙ rw (here, q) refl
        | inr further ↦
            let behind : (j + 1 == i) ≡ false = ground arith in
            let same : m.at j ≡ l.at j = at-change i (entry_at l i) l j ∙ rw further refl in
            let next : m.at (j + 1) ≡ l.at (j + 1) =
              at-change i (entry_at l i) l (j + 1) ∙ rw behind refl in
            fill_user-at rounds (i + 1) j m (ground arith) (omega arith)
            ∙ ap₂
                (λ (d e : Descriptor).
                  filled (entry_address beyond u j) (entry_size beyond u j)
                    (if j == u.nents - 1 then 0 else d.pa) e)
                next same
      ]

-- What the entries of a mapping are like: none is empty, and all are on the bus.
abbrev pub IsPiece : SgEntry → Type 0
IsPiece e = (0 < e.size) × IsBus e

get_or-IsPiece :
    (es : List SgEntry) (beyond : SgEntry) (j : ℕ)
    → All IsPiece es
    → j < length es
    → IsPiece (get_or es j beyond)
get_or-IsPiece [] beyond j every h = absurd (omega arith)
get_or-IsPiece (e ∷ es) beyond zero (p, every) h = p
get_or-IsPiece (e ∷ es) beyond (suc j) (p, every) h = get_or-IsPiece es beyond j every (omega arith)

get_or-total :
    (es : List SgEntry) (beyond : SgEntry) (j : ℕ)
    → j < length es
    → (get_or es j beyond).size ≤ total es
get_or-total [] beyond j h = absurd (omega arith)
get_or-total (e ∷ es) beyond zero h = omega arith
get_or-total (e ∷ es) beyond (suc j) h =
    let rest = get_or-total es beyond j (omega arith) in omega (arith, rest)

pieces-entries :
    (es : List SgEntry) (beyond : SgEntry) (l : DescriptorList) (i : ℕ)
    → ((j : ℕ) → j < length es → piece (l.at (i + j)) ≡ get_or es j beyond)
    → pieces (length es) l i ≡ es
pieces-entries [] beyond l i same = refl
pieces-entries (e ∷ es) beyond l i same =
    ap₂ (λ (x : SgEntry) xs. x ∷ xs)
      (ap (λ k. piece (l.at k)) {y = i + 0} (omega arith) ∙ same 0 (omega arith))
      (pieces-entries es beyond l (i + 1) (λ j h.
        ap (λ k. piece (l.at k)) {y = i + suc j} (omega arith) ∙ same (suc j) (omega arith)))

module _ (beyond : SgEntry) (u : UserMemory) (l : DescriptorList) (counted : u.nents ≡ length u.sg)
    (sized : l.size ≡ u.nents) (some_entry : 0 < u.nents) (few : u.nents < 2 ^ 31)
    (every : All IsPiece u.sg) (small : total u.sg < 2 ^ 32)
    (places : (j : ℕ) → j < l.size → (l.at j).pa < 2 ^ 64) where
  abbrev list : DescriptorList
  list = fill_user u.nents beyond u 0 l

  size_lem : list.size ≡ u.nents
  size_lem = fill_user-size beyond u u.nents 0 l ∙ sized

  at_lem : (j : ℕ) → j < u.nents → list.at j ≡ entry_at beyond u l j (l.at j)
  at_lem j here = fill_user-at beyond u u.nents 0 j l (omega arith) (omega arith)

  pa_lem : (j : ℕ) → j < u.nents → (list.at j).pa ≡ (l.at j).pa
  pa_lem j here = ap (λ (d : Descriptor). d.pa) (at_lem j here)

  entry_lem : (j : ℕ) → j < u.nents → IsPiece (get_or u.sg j beyond)
  entry_lem j here = get_or-IsPiece u.sg beyond j every (omega (arith, counted))

  short : (j : ℕ) → j < u.nents → entry_size beyond u j < 2 ^ 32
  short j here =
      let t = get_or-total u.sg beyond j (omega (arith, counted)) in omega (arith, t, small)

  piece_lem : (j : ℕ) → j < u.nents → piece (list.at j) ≡ get_or u.sg j beyond
  piece_lem j here =
      let e = get_or u.sg j beyond in
      let p = entry_lem j here in
      let s = short j here in
      let address : host_address (entry_at beyond u l j (l.at j)) ≡ e.addr = omega (arith, p.1) in
      let size : uint e.size ≡ e.size = omega (arith, s) in
      ap piece (at_lem j here) ∙ ap₂ (λ a n. record { addr = a; size = n }) address size

  list-IsWords : (j : ℕ) → j < u.nents → IsWords (list.at j)
  list-IsWords j here =
      let p = places j (omega (arith, sized)) in
      let words : IsWords (entry_at beyond u l j (l.at j)) = record {
        host_h = omega arith;
        host_l = omega arith;
        length = omega arith;
        address = p;
      } in
      subst IsWords (sym (at_lem j here)) words

  next_lem :
      (j : ℕ)
      → j < u.nents
      → ((list.at j).next_bda_h ≡ high (next_of beyond u l j))
        × ((list.at j).next_bda_l ≡ low (next_of beyond u l j))
  next_lem j here = (
    ap (λ (d : Descriptor). d.next_bda_h) (at_lem j here),
    ap (λ (d : Descriptor). d.next_bda_l) (at_lem j here),
  )

  next_inner : (j : ℕ) → j + 1 < u.nents → next_of beyond u l j ≡ (list.at (j + 1)).pa
  next_inner j here =
      let inner : (j == u.nents - 1) ≡ false = ground arith in rw inner (sym (pa_lem (j + 1) here))

  list-IsLinked : IsLinked list
  list-IsLinked =
      let s = size_lem in
      let last : (u.nents - 1 == u.nents - 1) ≡ true = ground arith in
      let ends = next_lem (u.nents - 1) (omega arith) in
      record {
        some_entry = omega (arith, s);
        small = omega (arith, s);
        words = λ j h. list-IsWords j (omega (arith, s));
        idle = λ j h. ap (λ (d : Descriptor). d.control) (at_lem j (omega (arith, s)));
        next_h = λ j h.
            let n = next_inner j (omega (arith, s)) in
            let q = next_lem j (omega (arith, s)) in
            let p = list-IsWords (j + 1) (omega (arith, s)) in
            q.0 ∙ ap high n ∙ omega (arith, p.address);
        next_l =
            λ j h. (next_lem j (omega (arith, s))).1 ∙ ap low (next_inner j (omega (arith, s)));
        end_h = rw s (ends.0 ∙ rw last refl);
        end_l = rw s (ends.1 ∙ rw last refl);
      }

  pieces_lem : pieces list.size list 0 ≡ u.sg
  pieces_lem =
      ap (λ n. pieces n list 0) (size_lem ∙ counted)
      ∙ pieces-entries u.sg beyond list 0 (λ j h.
        ap (λ k. piece (list.at k)) {x = 0 + j} (omega arith)
        ∙ piece_lem j (omega (arith, counted)))

  list-IsBuffer : IsBuffer (total u.sg) list
  list-IsBuffer =
      let s = size_lem in
      record {
        linked = list-IsLinked;
        filled = λ j h.
            let p = entry_lem j (omega (arith, s)) in
            let e = ap (λ (x : SgEntry). x.size) (piece_lem j (omega (arith, s))) in
            omega (arith, p.0, e);
        covers = ap total pieces_lem;
        small = small;
      }

-- A user buffer is mapped in at least one entry, and in fewer than 2^31; none is empty, and all together have
-- fewer than 2^32 bytes. Then `fillDescriptorList` makes a list for it that is at rest and stands for
-- as many bytes as the mapping, and its pieces are the entries of the mapping in order, wherever the
-- memory of the list itself is mapped and whatever it held.
pub fill_descriptor_list-IsBuffer :
    (beyond : SgEntry) (junk : ℕ → Descriptor) (u mapping : UserMemory) (size nr_pieces : ℕ)
    → u.nents ≡ length u.sg
    → 0 < u.nents
    → u.nents < 2 ^ 31
    → All IsPiece u.sg
    → total u.sg < 2 ^ 32
    → (l : DescriptorList) × (fill_descriptor_list beyond junk mapping size nr_pieces (user u)
        ≡ some l)
      × IsBuffer (total u.sg) l
      × (pieces l.size l 0 ≡ u.sg)
unfolding fill_descriptor_list
fill_descriptor_list-IsBuffer beyond junk u mapping size nr_pieces counted some_entry few every
      small =
    let l = new_list beyond junk u.nents mapping in
    let sized : l.size ≡ u.nents = size-new_list beyond junk u.nents mapping in
    let places = λ (j : ℕ) (h : j < l.size).
      let e =
        ap (λ (d : Descriptor). d.pa)
          (pa-new_list beyond junk u.nents mapping j (omega (arith, sized))) in
      let goal : (l.at j).pa < 2 ^ 64 = omega (arith, e) in goal in
    (
      fill_user u.nents beyond u 0 l,
      refl,
      list-IsBuffer beyond u l counted sized some_entry few every small places,
      pieces_lem beyond u l counted sized some_entry few every small places,
    )
