-- ===== src/Umem/Lifecycle.antt =====
-- A mapping from `pcidriver_umem_sgmap` to `pcidriver_umem_sgunmap`, and the list of mappings
-- between the calls.
use fpga_pcie_drivers.Common.{
  ℕ, ◌+◌, ◌^◌, ◌<◌, ◌≤◌, ◌≡◌, ◌⊎◌, inl, inr, refl, ◌∙◌, true, List, [], ◌∷◌, ◌++◌, length, arith,
  All, Bool-cases, List-cases, Option-cases, count, some, none, ◌==◌, Option, DistinctBy, IsFresh,
  All-snoc, All-map, All-remove_by, DistinctBy-snoc, DistinctBy-remove_by,
}
use fpga_pcie_drivers.Kernel.{
  acquire, Status, ok, failed, status-cases, Event, umem, block, sysfs_file,
}
use fpga_pcie_drivers.Device.{UmemHandle, UmemEntry, Privdata, uint}
use fpga_pcie_drivers.Umem.Pages.{lt_int, nr_pages_of}
use fpga_pcie_drivers.Umem.Map.{
  MapAnswer, locked_pages, umem_sgmap, umem_sgunmap, sgmap_entry, sgmap_pages,
}
use fpga_pcie_drivers.Umem.Balance.{calls_so_far, sgmap_pages-mapped, umem_sgmap-areas}

-- Every entry has its own address and id, and the counter is past all ids.
pub record IsValid (d : Privdata) : Type 0 where
  pub blocks : DistinctBy (λ e. e.addr) d.umem_list
  pub ids : DistinctBy (λ e. e.id) d.umem_list
  pub below : All (λ e. e.id < d.umem_count) d.umem_list

-- A successful mapping has got both areas and the pages, and has come to its last stage.
pub record Reached (k : MapAnswer) (d : Privdata) (h : UmemHandle) : Type 0 where
  pub pages_ptr : ℕ
  pub sg_ptr : ℕ
  pub positive : 0 < h.size
  pub stage :
      umem_sgmap k d h
      ≡ sgmap_entry pages_ptr sg_ptr
          (nr_pages_of h.vma h.size)
          (calls_so_far pages_ptr sg_ptr (nr_pages_of h.vma h.size) k)
          k
          d
          h

pub umem_sgmap-cases :
    (k : MapAnswer) (d : Privdata) (h : UmemHandle)
    → ((failed (umem_sgmap k d h).0 ≡ true) × ((umem_sgmap k d h).2 ≡ d)) ⊎ Reached k d h
umem_sgmap-cases k d h = elim (Bool-cases (h.size == 0)) [
  | inl e ↦ inl (unfold umem_sgmap in (ground arith, simp e))
  | inr pos ↦ elim (Option-cases k.pages_area) [
    | inl e ↦ inl (unfold umem_sgmap in (ground arith, simp (pos, e)))
    | inr (pages_ptr, e) ↦ elim (Option-cases k.sg_area) [
      | inl f ↦ inl (unfold umem_sgmap in (ground arith, simp (pos, e, f)))
      | inr (sg_ptr, f) ↦
          let nr = nr_pages_of h.vma h.size in
          let areas = umem_sgmap-areas k d h pages_ptr sg_ptr pos e f in
          elim (Bool-cases (lt_int k.res nr)) [
            | inl short ↦ inl (rw areas (unfold sgmap_pages in (ground arith, simp short)))
            | inr enough ↦ elim (List-cases k.mapped) [
              | inl g ↦ inl (rw areas (unfold sgmap_pages in (ground arith, simp (enough, g))))
              | inr (x, xs, g) ↦ inr (record {
                pages_ptr = pages_ptr;
                sg_ptr = sg_ptr;
                positive = ground arith;
                stage = areas ∙ sgmap_pages-mapped pages_ptr sg_ptr nr k d h x xs enough g;
              })
            ]
          ]
    ]
  ]
]

pub umem_sgmap-Reached :
    (k : MapAnswer) (d : Privdata) (h : UmemHandle) → (umem_sgmap k d h).0 ≡ ok → Reached k d h
umem_sgmap-Reached k d h done = elim (umem_sgmap-cases k d h) [
  | inl bad ↦ absurd (ground arith)
  | inr r ↦ r
]

abbrev pub value : Option ℕ → ℕ
value none = 0
value (some n) = n

-- the entry that a successful mapping adds
abbrev pub new_entry : ℕ → ℕ → MapAnswer → Privdata → UmemHandle → UmemEntry
new_entry pages_ptr sg_ptr k d h = record {
  addr = value k.entry;
  id = d.umem_count;
  nr_pages = nr_pages_of h.vma h.size;
  pages_ptr = pages_ptr;
  pages = locked_pages (nr_pages_of h.vma h.size) k.pinned;
  nents = length k.mapped;
  sg_ptr = sg_ptr;
  sg = k.mapped;
  name = value k.attr.name;
}

-- What the last stage has done when it succeeds, for the entry `e` that it has added.
pub record Added (done : List Event) (k : MapAnswer) (d : Privdata) (h : UmemHandle) (e : UmemEntry)
    (out : Status × UmemHandle × Privdata × List Event) : Type 0 where
  pub entry : k.entry ≡ some e.addr
  pub list : out.2.umem_list ≡ d.umem_list ++ e ∷ []
  pub counter : out.2.umem_count ≡ uint (d.umem_count + 1)
  pub handle : out.1.handle_id ≡ d.umem_count
  pub took :
      out.3
      ≡ done
        ++ acquire (block e.addr) ∷ acquire (block e.name) ∷ acquire (sysfs_file (umem e.id)) ∷ []

pub sgmap_entry-Added :
    (pages_ptr sg_ptr : ℕ) (done : List Event) (k : MapAnswer) (d : Privdata) (h : UmemHandle)
    → (sgmap_entry pages_ptr sg_ptr (nr_pages_of h.vma h.size) done k d h).0 ≡ ok
    → Added done k d h
        (new_entry pages_ptr sg_ptr k d h)
        (sgmap_entry pages_ptr sg_ptr (nr_pages_of h.vma h.size) done k d h)
unfolding sgmap_entry
sgmap_entry-Added pages_ptr sg_ptr done k d h good = elim (Option-cases k.entry) [
  | inl e ↦ absurd (ground arith)
  | inr (p, e) ↦ elim (Option-cases k.attr.name) [
    | inl f ↦ absurd (ground arith)
    | inr (q, f) ↦ elim (Bool-cases k.attr.created) [
      | inl g ↦
          rw (e, f, g)
            (record { entry = refl; list = refl; counter = refl; handle = refl; took = refl })
      | inr g ↦ absurd (ground arith)
    ]
  ]
]

-- The last stage leaves the list alone when it fails, and the counter as it was or one further.
sgmap_entry-failed :
    (pages_ptr sg_ptr nr : ℕ) (done : List Event) (k : MapAnswer) (d : Privdata) (h : UmemHandle)
    → failed (sgmap_entry pages_ptr sg_ptr nr done k d h).0 ≡ true
    → ((sgmap_entry pages_ptr sg_ptr nr done k d h).2.umem_list ≡ d.umem_list)
      × (((sgmap_entry pages_ptr sg_ptr nr done k d h).2.umem_count ≡ d.umem_count)
          ⊎ ((sgmap_entry pages_ptr sg_ptr nr done k d h).2.umem_count ≡ uint (d.umem_count + 1)))
unfolding sgmap_entry
sgmap_entry-failed pages_ptr sg_ptr nr done k d h bad = ground arith

-- A failed mapping leaves the list as it was.
pub umem_sgmap-undone :
    (k : MapAnswer) (d : Privdata) (h : UmemHandle)
    → failed (umem_sgmap k d h).0 ≡ true
    → (umem_sgmap k d h).2.umem_list ≡ d.umem_list
umem_sgmap-undone k d h bad = elim (umem_sgmap-cases k d h) [
  | inl early ↦ rw early.1 refl
  | inr r ↦
      let late = rw r.stage at bad in
      rw r.stage (sgmap_entry-failed r.pages_ptr r.sg_ptr _ _ k d h late).0
]

raised-IsValid :
    (d d' : Privdata)
    → d'.umem_list ≡ d.umem_list
    → d.umem_count ≤ d'.umem_count
    → IsValid d
    → IsValid d'
raised-IsValid d d' same more v = record {
  blocks = rw same v.blocks;
  ids = rw same v.ids;
  below = rw same (All-map _ _ d.umem_list (λ e h. omega arith) v.below);
}

added-IsValid :
    (d d' : Privdata) (e : UmemEntry)
    → d.umem_count + 1 < 2 ^ 32
    → IsFresh (λ x. x.addr) e.addr d.umem_list
    → e.id ≡ d.umem_count
    → d'.umem_list ≡ d.umem_list ++ e ∷ []
    → d'.umem_count ≡ uint (d.umem_count + 1)
    → IsValid d
    → IsValid d'
added-IsValid d d' e room fresh id list count v = record {
  blocks = rw list (DistinctBy-snoc _ d.umem_list e v.blocks fresh);
  ids = rw list (
      DistinctBy-snoc _ d.umem_list e v.ids (All-map _ _ d.umem_list (λ x h. omega arith) v.below));
  below = rw list (
      All-snoc _ d.umem_list e (All-map _ _ d.umem_list (λ x h. omega arith) v.below)
        (omega arith));
}

-- `pcidriver_umem_sgmap` keeps the invariant on every path, errors included, if the entry that the
-- kernel allocates is not in use and the 32-bit counter of ids has not run round.
pub umem_sgmap-IsValid :
    (k : MapAnswer) (d : Privdata) (h : UmemHandle)
    → d.umem_count + 1 < 2 ^ 32
    → ((p : ℕ) → k.entry ≡ some p → IsFresh (λ x. x.addr) p d.umem_list)
    → IsValid d
    → IsValid (umem_sgmap k d h).2
umem_sgmap-IsValid k d h room fresh v = elim (umem_sgmap-cases k d h) [
  | inl bad ↦ rw bad.1 v
  | inr r ↦ rw r.stage (elim (status-cases _) [
    | inl good ↦
        let a = sgmap_entry-Added r.pages_ptr r.sg_ptr _ k d h good in
        added-IsValid d _ _ room (fresh _ a.entry) refl a.list a.counter v
    | inr bad ↦
        let f = sgmap_entry-failed r.pages_ptr r.sg_ptr _ _ k d h bad in
        raised-IsValid d _ f.0 (omega arith) v
  ])
]

-- `pcidriver_umem_sgunmap` keeps the invariant, for any entry.
pub umem_sgunmap-IsValid : (d : Privdata) (e : UmemEntry) → IsValid d → IsValid (umem_sgunmap d e).1
unfolding umem_sgunmap
umem_sgunmap-IsValid d e v = record {
  blocks = DistinctBy-remove_by _ _ _ d.umem_list v.blocks;
  ids = DistinctBy-remove_by _ _ _ d.umem_list v.ids;
  below = All-remove_by _ _ _ d.umem_list v.below;
}
