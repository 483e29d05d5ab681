-- ===== src/Umem/Sglist.antt =====
-- `pcidriver_umem_sgget` of umem.c: the bus entries of a mapping, copied to the caller's array,
-- merged on request.
use fpga_pcie_drivers.Common.{
  ℕ, ◌+◌, ◌-◌, none, some, List, [], ◌∷◌, ltb, ◌==◌, if◌then◌else◌, get_or, set,
}
use fpga_pcie_drivers.Kernel.{Status, ok, err, einval}
use fpga_pcie_drivers.Device.{SgEntry, UmemSglist, Privdata, ulong, sg_merged}
use fpga_pcie_drivers.Umem.Map.{umem_find_entry_id}

-- What a read out of the array would give.
abbrev pub no_entry : SgEntry
no_entry = record { addr = 0; size = 0 }

-- one round of the merging loop, `idx` the entry in use: the array and `idx` after it
unfoldable pub merge_step : List SgEntry → ℕ → SgEntry → List SgEntry × ℕ
merge_step sg idx e =
    let cur = get_or sg idx no_entry in
    if e.addr == ulong (cur.addr + cur.size)
    then (set sg idx (record cur { size = ulong (cur.size + e.size) }), idx)
    else if e.size == 0
    then (sg, idx)
    else (set sg (idx + 1) e, idx + 1)

-- the merging loop from its second round on
unfoldable pub merge_rest : List SgEntry → ℕ → List SgEntry → List SgEntry × ℕ
merge_rest sg idx [] = (sg, idx)
merge_rest sg idx (e ∷ es) = let (sg', idx') = merge_step sg idx e in merge_rest sg' idx' es

-- the merging loop: the array, and how many entries of it are in use
unfoldable pub merge_all : List SgEntry → List SgEntry → List SgEntry × ℕ
merge_all sg [] = (sg, 1)
merge_all sg (e ∷ es) = let (sg', idx) = merge_rest (set sg 0 e) 0 es in (sg', idx + 1)

-- the plain copy, from index `i` on
unfoldable pub copy_from : List SgEntry → ℕ → List SgEntry → List SgEntry
copy_from sg i [] = sg
copy_from sg i (e ∷ es) = copy_from (set sg i e) (i + 1) es

-- the plain copy of `nents` entries, without a last one of length zero
unfoldable pub copy_all : List SgEntry → ℕ → List SgEntry → List SgEntry × ℕ
unfolding copy_from
copy_all sg nents es =
    let copied = copy_from sg 0 es in
    if (get_or copied (nents - 1) no_entry).size == 0 then (copied, nents - 1) else (copied, nents)

-- `pcidriver_umem_sgget`
unfoldable pub umem_sgget : Privdata → UmemSglist → Status × UmemSglist
umem_sgget d l = elim (umem_find_entry_id d l.handle_id) [
  | none ↦ (err einval, l)
  | some e ↦
      if ltb l.nents e.nents
      then (err einval, l)
      else if l.type == sg_merged
      then (let (sg, used) = merge_all l.sg e.sg in (ok, record l { sg = sg; nents = used }))
      else (let (sg, used) = copy_all l.sg e.nents e.sg in (ok, record l { sg = sg; nents = used }))
]
