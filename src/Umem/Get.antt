-- ===== src/Umem/Get.antt =====
-- What a caller of `pcidriver_umem_sgget` gets.
use fpga_pcie_drivers.Common.{
  ℕ, suc, ◌+◌, ◌-◌, ◌^◌, ◌<◌, ◌≤◌, ◌≡◌, ◌≢◌, refl, sym, ◌∙◌, ap, ap₂, true, false, some, List, [],
  ◌∷◌, ◌++◌, ltb, length, arith, All, Bool-cases, inl, inr, ◌==◌, ==_iff, get_or, set, take,
  length-set, get_or-set_self,
}
use native.Mathlib.Numerals.{add-one}
use mathlib.Core.List.{append_assoc, append-nil}
use fpga_pcie_drivers.Kernel.{ok}
use fpga_pcie_drivers.Device.{SgEntry, UmemSglist, UmemEntry, Privdata, sg_merged}
use fpga_pcie_drivers.Umem.Map.{umem_find_entry_id}
use fpga_pcie_drivers.Umem.Sglist.{no_entry, merge_all, copy_from, copy_all, umem_sgget}
use fpga_pcie_drivers.Umem.Merge.{take-suc, take-set_ge, merge_all-coalesce}
use fpga_pcie_drivers.Umem.Bytes.{
  bytes, total, run, run-none, IsBus, bytes-coalesce, IsApart, coalesce-IsApart,
}

bytes-append : (xs ys : List SgEntry) → bytes (xs ++ ys) ≡ bytes xs ++ bytes ys
bytes-append [] ys = refl
bytes-append (x ∷ xs) ys =
    ap (λ zs. run x.addr x.size ++ zs) (bytes-append xs ys) ∙ sym (append_assoc _ _ (bytes ys))

-- The plain copy writes the entries one after the other.
take-copy_from :
    (es sg : List SgEntry) (i : ℕ)
    → i + length es ≤ length sg
    → (take (i + length es) (copy_from sg i es) ≡ take i sg ++ es)
      × (length (copy_from sg i es) ≡ length sg)
unfolding copy_from
take-copy_from [] sg i room =
    (ap (λ n. take n sg) (omega arith) ∙ sym (append-nil (take i sg)), refl)
take-copy_from (e ∷ es) sg i room =
    let kept = length-set sg i e in
    let ih = take-copy_from es (set sg i e) (i + 1) (omega arith) in
    (
      ap (λ n. take n (copy_from (set sg i e) (i + 1) es)) (omega arith)
          ∙ ih.0
          ∙ ap (λ n. take n (set sg i e) ++ es) (add-one i)
          ∙ ap (λ xs. xs ++ es)
              (take-suc i (set sg i e) (omega arith)
                ∙ ap₂ (λ xs x. xs ++ x ∷ []) (take-set_ge i i sg e (omega arith))
                    (get_or-set_self sg i e no_entry (omega arith)))
          ∙ append_assoc (take i sg) (e ∷ []) es,
      ih.1 ∙ kept,
    )

-- An entry of length zero at the end stands for nothing.
bytes-drop_last :
    (sg : List SgEntry) (m : ℕ)
    → m < length sg
    → (get_or sg m no_entry).size ≡ 0
    → bytes (take m sg) ≡ bytes (take (suc m) sg)
bytes-drop_last sg m inside empty = sym (
    ap bytes (take-suc m sg inside)
    ∙ bytes-append (take m sg) (get_or sg m no_entry ∷ [])
    ∙ ap (λ xs. bytes (take m sg) ++ (xs ++ [])) (run-none _ _ empty)
    ∙ append-nil (bytes (take m sg)))

-- The plain copy leaves in use the bytes of the entries.
bytes-copy_all :
    (es sg : List SgEntry)
    → 0 < length es
    → length es ≤ length sg
    → (bytes (take (copy_all sg (length es) es).1 (copy_all sg (length es) es).0) ≡ bytes es)
      × ((copy_all sg (length es) es).1 ≤ length es)
unfolding copy_all
bytes-copy_all es sg some_entry room =
    let copy = take-copy_from es sg 0 (omega arith) in
    let sg' = copy_from sg 0 es in
    let all : take (length es) sg' ≡ es = ap (λ n. take n sg') (omega arith) ∙ copy.0 in
    elim (Bool-cases ((get_or sg' (length es - 1) no_entry).size == 0)) [
      | inl empty ↦ rw empty (
        bytes-drop_last sg' (length es - 1) (omega (arith, copy.1)) ((==_iff _ _).0 empty)
            ∙ ap (λ n. bytes (take n sg')) {x = suc (length es - 1)} (omega arith)
            ∙ ap bytes all,
        omega arith,
      )
      | inr full ↦ rw full (ap bytes all, omega arith)
    ]

-- What `pcidriver_umem_sgget` returns for a known mapping whose entries fit the caller's array, by
-- the type that the caller asks for.
sgget_merged :
    (d : Privdata) (l : UmemSglist) (e : UmemEntry)
    → umem_find_entry_id d l.handle_id ≡ some e
    → ltb l.nents e.nents ≡ false
    → l.type ≡ sg_merged
    → umem_sgget d l
      ≡ (ok, record l { sg = (merge_all l.sg e.sg).0; nents = (merge_all l.sg e.sg).1 })
unfolding umem_sgget
sgget_merged d l e found fits type =
    let merged : (l.type == sg_merged) ≡ true = ground arith in rw (found, umem_sgget, fits, merged)

sgget_plain :
    (d : Privdata) (l : UmemSglist) (e : UmemEntry)
    → umem_find_entry_id d l.handle_id ≡ some e
    → ltb l.nents e.nents ≡ false
    → l.type ≢ sg_merged
    → umem_sgget d l ≡ (
      ok,
      record l { sg = (copy_all l.sg e.nents e.sg).0; nents = (copy_all l.sg e.nents e.sg).1 },
    )
unfolding umem_sgget
sgget_plain d l e found fits type =
    let plain : (l.type == sg_merged) ≡ false = ground arith in rw (found, umem_sgget, fits, plain)

-- What the caller and the mapping bring: an array of the length that is claimed, the mapping's
-- entries as pci_map_sg has left them, at least one, with 64-bit addresses and lengths that add up
-- to no more.
pub record IsGettable (l : UmemSglist) (e : UmemEntry) : Type 0 where
  pub array : length l.sg ≡ l.nents
  pub entries : e.nents ≡ length e.sg
  pub some_entry : 0 < length e.sg
  pub bus : All IsBus e.sg
  pub small : total e.sg < 2 ^ 64

merged-bytes :
    (es sg : List SgEntry)
    → 0 < length es
    → length es ≤ length sg
    → All IsBus es
    → total es < 2 ^ 64
    → (bytes (take (merge_all sg es).1 (merge_all sg es).0) ≡ bytes es)
      × ((merge_all sg es).1 ≤ length es)
      × IsApart (take (merge_all sg es).1 (merge_all sg es).0)
merged-bytes [] sg some_entry room bus small = absurd (omega arith)
merged-bytes (e ∷ es) sg some_entry room bus small =
    let m = merge_all-coalesce e es sg room in
    (ap bytes m.0 ∙ bytes-coalesce e es bus small, m.2, rw m.0 (coalesce-IsApart e es))

-- For a known mapping and an array with room for all its entries, `pcidriver_umem_sgget` returns 0,
-- and the entries that it reports as used stand for the same bytes in the same order as the
-- mapping's, merged or not. They are no more than the mapping's entries.
pub bytes-umem_sgget :
    (d : Privdata) (l : UmemSglist) (e : UmemEntry)
    → umem_find_entry_id d l.handle_id ≡ some e
    → e.nents ≤ l.nents
    → IsGettable l e
    → ((umem_sgget d l).0 ≡ ok)
      × (bytes (take (umem_sgget d l).1.nents (umem_sgget d l).1.sg) ≡ bytes e.sg)
      × ((umem_sgget d l).1.nents ≤ e.nents)
bytes-umem_sgget d l e found fits g =
    let room : ltb l.nents e.nents ≡ false = ground arith in
    elim (Bool-cases (l.type == sg_merged)) [
      | inl merged ↦
          let m =
            merged-bytes e.sg l.sg g.some_entry (omega (arith, g.array, g.entries)) g.bus g.small in
          rw (sgget_merged d l e found room ((==_iff _ _).0 merged))
            (refl, m.0, omega (arith, m.1, g.entries))
      | inr plain ↦
          let c = bytes-copy_all e.sg l.sg g.some_entry (omega (arith, g.array, g.entries)) in
          rw (sgget_plain d l e found room (ground arith), g.entries) (refl, c.0, c.1)
    ]

-- If merging is asked for, no entry that is reported begins where the one before it ends: no two
-- can be merged further.
umem_sgget-IsApart :
    (d : Privdata) (l : UmemSglist) (e : UmemEntry)
    → umem_find_entry_id d l.handle_id ≡ some e
    → e.nents ≤ l.nents
    → l.type ≡ sg_merged
    → IsGettable l e
    → IsApart (take (umem_sgget d l).1.nents (umem_sgget d l).1.sg)
umem_sgget-IsApart d l e found fits type g =
    let room : ltb l.nents e.nents ≡ false = ground arith in
    rw (sgget_merged d l e found room type)
      (merged-bytes e.sg l.sg g.some_entry (omega (arith, g.array, g.entries)) g.bus g.small).2
