-- ===== src/Sysfs/Shows.antt =====
-- The attributes that are read, sysfs.c: `pcidriver_show_kmem_entry` to `pcidriver_show_umappings`.
-- Modelled is the length that they return. snprintf returns how long
-- the text would be if it were not cut; those lengths are arguments.
use fpga_pcie_drivers.Common.{
  ℕ, zero, suc, ◌+◌, ◌*◌, ◌≤◌, ◌<◌, ◌≡◌, ◌⊎◌, List, [], ◌∷◌, arith, ltb, if◌then◌else◌, get_or,
}
use fpga_pcie_drivers.Device.{KmemEntry, UmemEntry, Privdata, page_size, int_maxsources}

-- `pcidriver_show_kmem_entry`, with the length of the line for an id
unfoldable pub show_kmem_entry : (ℕ → ℕ) → KmemEntry → ℕ
show_kmem_entry line e = line e.id

-- `pcidriver_show_umem_entry`
unfoldable pub show_umem_entry : UmemEntry → ℕ
show_umem_entry e = 0

-- `pcidriver_show_irq_count`, with the length of the line for a number, and the others that show one
unfoldable pub show_irq_count : (ℕ → ℕ) → Privdata → ℕ
show_irq_count line d = line d.irq_count

unfoldable pub show_mmap_mode : (ℕ → ℕ) → Privdata → ℕ
show_mmap_mode line d = line d.mmap_mode

unfoldable pub show_mmap_area : (ℕ → ℕ) → Privdata → ℕ
show_mmap_area line d = line d.mmap_area

unfoldable pub show_kmem_count : (ℕ → ℕ) → Privdata → ℕ
show_kmem_count line d = line d.kmem_count

-- the end of the three lists
abbrev pub reported : ℕ → ℕ
reported offset = if ltb page_size offset then page_size else offset + 1

-- the loop over a list, which leaves when the page is full
unfoldable pub show_rows {ℓ} : {A : Type ℓ} → (A → ℕ) → ℕ → List A → ℕ
show_rows row offset [] = reported offset
show_rows row offset (x ∷ xs) =
    let rest = show_rows row (offset + row x) xs in if ltb page_size offset then page_size else rest

-- `pcidriver_show_kbuffers`, with the lengths of the header and of an entry's row
unfoldable pub show_kbuffers : ℕ → (KmemEntry → ℕ) → Privdata → ℕ
show_kbuffers header row d = show_rows row header d.kmem_list

-- `pcidriver_show_umappings`
unfoldable pub show_umappings : ℕ → (UmemEntry → ℕ) → Privdata → ℕ
show_umappings header row d = show_rows row header d.umem_list

-- the loop of `pcidriver_show_irq_queues`: `n` channels are left, from `i` on
unfoldable pub show_queues : (ℕ → ℕ → ℕ) → Privdata → ℕ → ℕ → ℕ → ℕ
show_queues row d offset i zero = reported offset
show_queues row d offset i (suc n) =
    show_queues row d (offset + row i (get_or d.irq_outstanding i 0)) (i + 1) n

-- `pcidriver_show_irq_queues`, with the length of a row for a channel and its counter
unfoldable pub show_irq_queues : ℕ → (ℕ → ℕ → ℕ) → Privdata → ℕ
show_irq_queues header row d = show_queues row d header 0 int_maxsources

-- the length of the whole text
abbrev pub total {ℓ} : {A : Type ℓ} → (A → ℕ) → List A → ℕ
total row [] = 0
total row (x ∷ xs) = row x + total row xs

show_rows-total {ℓ} :
    {A : Type ℓ} (row : A → ℕ) (offset : ℕ) (xs : List A)
    → show_rows row offset xs ≡ reported (offset + total row xs)
unfolding show_rows
show_rows-total row offset [] = ground arith
show_rows-total row offset (x ∷ xs) = ground (arith, show_rows-total row (offset + row x) xs)

-- A text of `size` bytes is reported with its size and one more, for the final zero byte, or as one
-- page if it is longer than that.
abbrev pub IsReport : ℕ → ℕ → Type 0
IsReport size answer =
    ((size ≤ page_size) × (answer ≡ size + 1)) ⊎ ((page_size < size) × (answer ≡ page_size))

reported-IsReport : (size : ℕ) → IsReport size (reported size)
reported-IsReport size = ground arith

-- Whatever the entries, the lists of kernel buffers and of mappings are reported with the length of
-- the whole text and one more, or as one page if the text is longer than that. So a text of exactly a
-- page is reported one byte too long, and no other is.
pub show_kbuffers-show_umappings :
    (header : ℕ) (buffer : KmemEntry → ℕ) (mapping : UmemEntry → ℕ) (d : Privdata)
    → IsReport (header + total buffer d.kmem_list) (show_kbuffers header buffer d)
      × IsReport (header + total mapping d.umem_list) (show_umappings header mapping d)
unfolding show_kbuffers show_umappings
show_kbuffers-show_umappings header buffer mapping d = (
  rw (show_rows-total buffer header d.kmem_list) (reported-IsReport _),
  rw (show_rows-total mapping header d.umem_list) (reported-IsReport _),
)

show_queues-bound :
    (row : ℕ → ℕ → ℕ) (short : (i n : ℕ) → row i n ≤ 15) (d : Privdata) (offset i n : ℕ)
    → offset + n * 15 < page_size
    → (offset < show_queues row d offset i n) × (show_queues row d offset i n ≤ offset + n * 15 + 1)
unfolding show_queues
show_queues-bound row short d offset i zero room = ground arith
show_queues-bound row short d offset i (suc n) room =
    let counter = get_or d.irq_outstanding i 0 in
    let fits : row i counter ≤ 15 = short i counter in
    let rest = show_queues-bound row short d (offset + row i counter) (i + 1) n (omega arith) in
    (omega arith, omega arith)

-- The list of channels always fits into the page: if the header has 23 bytes and no row more than
-- 15, the length is never cut and is at most 264.
pub show_irq_queues-bound :
    (header : ℕ) (row : ℕ → ℕ → ℕ) (d : Privdata)
    → header ≤ 23
    → ((i n : ℕ) → row i n ≤ 15)
    → (header < show_irq_queues header row d) × (show_irq_queues header row d ≤ 264)
unfolding show_irq_queues
show_irq_queues-bound header row d h short =
    let bound = show_queues-bound row short d header 0 int_maxsources (omega arith) in
    (omega arith, omega arith)
