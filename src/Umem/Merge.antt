-- ===== src/Umem/Merge.antt =====
-- The merging loop of `pcidriver_umem_sgget` against a plain recursion.
use fpga_pcie_drivers.Common.{
  ℕ, zero, suc, ◌+◌, ◌<◌, ◌≤◌, ◌≡◌, refl, sym, ◌∙◌, ap, ap₂, true, false, List, [], ◌∷◌, ◌++◌,
  if◌then◌else◌, length, arith, Bool-cases, inl, inr, ◌==◌, get_or, set, take, length-set,
  get_or-set_self,
}
use native.Mathlib.Numerals.{add-one}
use mathlib.Core.List.{append_assoc}
use fpga_pcie_drivers.Device.{SgEntry, ulong}
use fpga_pcie_drivers.Umem.Sglist.{no_entry, merge_step, merge_rest, merge_all}

-- The same merge as a recursion on the entries, `cur` the one that is growing.
unfoldable pub coalesce : SgEntry → List SgEntry → List SgEntry
coalesce cur [] = cur ∷ []
coalesce cur (e ∷ es) =
    let grown = coalesce (record cur { size = ulong (cur.size + e.size) }) es in
    let same = coalesce cur es in
    let next = cur ∷ coalesce e es in
    if e.addr == ulong (cur.addr + cur.size) then grown else if e.size == 0 then same else next

pub take-set_ge :
    (n i : ℕ) (sg : List SgEntry) (e : SgEntry) → n ≤ i → take n (set sg i e) ≡ take n sg
take-set_ge zero i sg e h = refl
take-set_ge (suc n) i [] e h = refl
take-set_ge (suc n) zero (x ∷ sg) e h = absurd (omega arith)
take-set_ge (suc n) (suc i) (x ∷ sg) e h = ap (λ xs. x ∷ xs) (take-set_ge n i sg e (omega arith))

pub take-suc :
    (n : ℕ) (sg : List SgEntry)
    → n < length sg
    → take (suc n) sg ≡ take n sg ++ get_or sg n no_entry ∷ []
take-suc n [] h = absurd (omega arith)
take-suc zero (x ∷ sg) h = refl
take-suc (suc n) (x ∷ sg) h = ap (λ xs. x ∷ xs) (take-suc n sg (omega arith))

-- A record is its entry with the new size.
abbrev pub grown : SgEntry → SgEntry → SgEntry
grown cur e = record cur { size = ulong (cur.size + e.size) }

module _ (cur e : SgEntry) (es : List SgEntry) where
  pub coalesce-grow :
      (e.addr == ulong (cur.addr + cur.size)) ≡ true
      → coalesce cur (e ∷ es) ≡ coalesce (grown cur e) es
  unfolding coalesce
  coalesce-grow fits = ground arith

  pub coalesce-skip :
      (e.addr == ulong (cur.addr + cur.size)) ≡ false
      → (e.size == 0) ≡ true
      → coalesce cur (e ∷ es) ≡ coalesce cur es
  unfolding coalesce
  coalesce-skip apart empty = ground arith

  pub coalesce-next :
      (e.addr == ulong (cur.addr + cur.size)) ≡ false
      → (e.size == 0) ≡ false
      → coalesce cur (e ∷ es) ≡ cur ∷ coalesce e es
  unfolding coalesce
  coalesce-next apart more = ground arith

-- What the loop owes: what it leaves in use is what was finished before, and the recursion from the
-- current entry on; the array keeps its length, and the entry in use is one of it.
record Merges (out : List SgEntry × ℕ) (sg : List SgEntry) (idx : ℕ) (cur : SgEntry)
    (es : List SgEntry) : Type 0 where
  used : take (suc out.1) out.0 ≡ take idx sg ++ coalesce cur es
  same_length : length out.0 ≡ length sg
  within : out.1 ≤ idx + length es

merge_rest-Merges :
    (es sg : List SgEntry) (idx : ℕ)
    → idx + length es < length sg
    → Merges (merge_rest sg idx es) sg idx (get_or sg idx no_entry) es
unfolding merge_rest merge_step
merge_rest-Merges [] sg idx room = record {
  used = unfold coalesce in take-suc idx sg (omega arith);
  same_length = refl;
  within = omega arith;
}
merge_rest-Merges (e ∷ es) sg idx room =
    let cur = get_or sg idx no_entry in
    elim (Bool-cases (e.addr == ulong (cur.addr + cur.size))) [
      | inl fits ↦
          let sg' = set sg idx (grown cur e) in
          let kept = length-set sg idx (grown cur e) in
          let ih = merge_rest-Merges es sg' idx (omega arith) in
          rw fits (record {
            used =
                ih.used
                ∙ ap₂ (λ xs c. xs ++ coalesce c es)
                    (take-set_ge idx idx sg (grown cur e) (omega arith))
                    (get_or-set_self sg idx (grown cur e) no_entry (omega arith))
                ∙ ap (λ xs. take idx sg ++ xs) (sym (coalesce-grow cur e es fits));
            same_length = ih.same_length ∙ kept;
            within = omega (arith, ih.within);
          })
      | inr apart ↦ elim (Bool-cases (e.size == 0)) [
        | inl empty ↦
            let ih = merge_rest-Merges es sg idx (omega arith) in
            rw (apart, empty)
              (record {
                used =
                    ih.used
                    ∙ ap (λ xs. take idx sg ++ xs) (sym (coalesce-skip cur e es apart empty));
                same_length = ih.same_length;
                within = omega (arith, ih.within);
              })
        | inr more ↦
            let sg' = set sg (idx + 1) e in
            let kept = length-set sg (idx + 1) e in
            let ih = merge_rest-Merges es sg' (idx + 1) (omega arith) in
            rw (apart, more)
              (record {
                used =
                    ih.used
                    ∙ ap₂ (λ xs c. xs ++ coalesce c es)
                        (take-set_ge (idx + 1) (idx + 1) sg e (omega arith)
                          ∙ ap (λ n. take n sg) (add-one idx)
                          ∙ take-suc idx sg (omega arith))
                        (get_or-set_self sg (idx + 1) e no_entry (omega arith))
                    ∙ append_assoc (take idx sg) (cur ∷ []) (coalesce e es)
                    ∙ ap (λ xs. take idx sg ++ xs) (sym (coalesce-next cur e es apart more));
                same_length = ih.same_length ∙ kept;
                within = omega (arith, ih.within);
              })
      ]
    ]

-- The merging loop leaves in use the merge of the entries, writes only inside the array if there is
-- room for all of them unmerged, and uses no more entries than there were.
pub merge_all-coalesce :
    (e : SgEntry) (es sg : List SgEntry)
    → length (e ∷ es) ≤ length sg
    → (take (merge_all sg (e ∷ es)).1 (merge_all sg (e ∷ es)).0 ≡ coalesce e es)
      × (length (merge_all sg (e ∷ es)).0 ≡ length sg)
      × ((merge_all sg (e ∷ es)).1 ≤ length (e ∷ es))
unfolding merge_all
merge_all-coalesce e es sg room =
    let kept = length-set sg 0 e in
    let m = merge_rest-Merges es (set sg 0 e) 0 (omega arith) in
    (
      ap (λ n. take n (merge_rest (set sg 0 e) 0 es).0) (add-one _)
          ∙ m.used
          ∙ ap (λ c. coalesce c es) (get_or-set_self sg 0 e no_entry (omega arith)),
      m.same_length ∙ kept,
      omega (arith, m.within),
    )
