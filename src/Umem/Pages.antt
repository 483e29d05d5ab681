-- ===== src/Umem/Pages.antt =====
-- The page arithmetic of `pcidriver_umem_sgmap` (umem.c): how many pages a range of user memory
-- touches, and the scatterlist over them.
use fpga_pcie_drivers.Common.{
  ℕ, ◌+◌, ◌-◌, ◌/◌, ◌%◌, ◌^◌, Bool, true, List, [], ◌∷◌, ◌++◌, ltb, if◌then◌else◌,
}
use fpga_pcie_drivers.Kernel.{Event, acquire, release, act, page_ref, page_lock, set_page_dirty}
use fpga_pcie_drivers.Device.{Page, page_size, ulong, uint}

-- `<` on two `int`s, given as 32-bit patterns
abbrev pub lt_int : ℕ → ℕ → Bool
lt_int a b = ltb (uint (a + 2 ^ 31)) (uint (b + 2 ^ 31))

-- `vma & ~PAGE_MASK`
abbrev pub page_offset : ℕ → ℕ
page_offset vma = vma % page_size

-- `((vma & ~PAGE_MASK) + size + ~PAGE_MASK) >> PAGE_SHIFT`, stored in an `int`
unfoldable pub nr_pages_of : ℕ → ℕ → ℕ
nr_pages_of vma size = uint (ulong (page_offset vma + size + (page_size - 1)) / page_size)

-- An entry of the scatterlist as `sg_set_page` fills it.
pub record SgPage : Type 0 where
  pub frame : ℕ
  pub length : ℕ
  pub offset : ℕ

-- the length of the first entry
abbrev pub first_length : ℕ → ℕ → ℕ
first_length offset size = if ltb (page_size - offset) size then page_size - offset else size

-- the length of each further entry
abbrev pub rest_length : ℕ → ℕ
rest_length count = if ltb page_size count then page_size else count

-- the loop over the pages but the first
unfoldable pub populate_rest : ℕ → List Page → List SgPage
populate_rest count [] = []
populate_rest count (p ∷ ps) =
    let len = rest_length count in
    record { frame = p.frame; length = len; offset = 0 } ∷ populate_rest (count - len) ps

-- the scatterlist over the pages of a range that begins at `offset` in the first
unfoldable pub populate : ℕ → ℕ → List Page → List SgPage
unfolding populate_rest
populate offset size [] = []
populate offset size (p ∷ ps) =
    let len = first_length offset size in
    record { frame = p.frame; length = len; offset = offset } ∷ populate_rest (size - len) ps

-- How many pages the loop that locks them visits: the first, and those up to `nr_pages`.
abbrev pub visited : ℕ → ℕ
visited nr = if lt_int 1 nr then nr else 1

-- `if (!PageReserved(page)) compat_lock_page(page)`
abbrev pub lock_page : Page → Page
lock_page p = if p.reserved then p else record p { locked = true }

abbrev pub lock_calls : List Page → List Event
lock_calls [] = []
lock_calls (p ∷ ps) = (if p.reserved then [] else acquire (page_lock p.frame) ∷ []) ++ lock_calls ps

-- the references that get_user_pages takes
abbrev pub pin_calls : List Page → List Event
pin_calls [] = []
pin_calls (p ∷ ps) = acquire (page_ref p.frame) ∷ pin_calls ps

-- the loop at `umem_sgmap_unmap`
unfoldable pub undo_calls : List Page → List Event
undo_calls [] = []
undo_calls (p ∷ ps) =
    (if p.locked then release (page_lock p.frame) ∷ [] else [])
    ++ (if p.reserved then [] else act (set_page_dirty p.frame) ∷ [])
    ++ release (page_ref p.frame) ∷ undo_calls ps

-- the loop of `pcidriver_umem_sgunmap`
unfoldable pub unpin_calls : List Page → List Event
unpin_calls [] = []
unpin_calls (p ∷ ps) =
    (if p.reserved then [] else act (set_page_dirty p.frame) ∷ release (page_lock p.frame) ∷ [])
    ++ release (page_ref p.frame) ∷ unpin_calls ps
