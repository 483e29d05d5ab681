-- ===== src/Base/Mmap.antt =====
-- `pcidriver_mmap` and `pcidriver_mmap_pci` of base.c. The macros of compat.h shift a bus address
-- to a page frame.
use fpga_pcie_drivers.Common.{
  ℕ, ◌+◌, ◌-◌, ◌/◌, ◌^◌, ◌≤◌, ◌≡◌, ◌⊎◌, Bool, true, false, List, [], ◌∷◌, arith, leb, ◌==◌,
  if◌then◌else◌, get_or,
}
use fpga_pcie_drivers.Kernel.{
  Status, ok, err, einval, eagain, Action, Event, act, remap_pfn_range, io_remap_pfn_range,
}
use fpga_pcie_drivers.Device.{Bar, Privdata, page_size, ulong, mmap_pci, mmap_kmem, bar5}
use fpga_pcie_drivers.Kmem.{wrong_size, mmap_kmem_buffer}

-- What the kernel tells of a BAR that the device does not have.
abbrev pub no_bar : Bar
no_bar = record { start = 0; len = 0; io = false; prefetch = false }

-- how a BAR is mapped into a user's range that starts at `vm_start`
abbrev pub map_call : ℕ → Bar → Action
map_call vm_start b =
    if b.io
    then io_remap_pfn_range vm_start (b.start / page_size) b.len
    else remap_pfn_range vm_start (b.start / page_size) b.len

-- `pcidriver_mmap_pci`; `remapped` is the answer of the kernel.
unfoldable pub mmap_bar : Bool → Privdata → ℕ → ℕ → ℕ → Status × List Event
mmap_bar remapped d vm_start vm_end bar =
    let b = get_or d.pdev.bars bar no_bar in
    if wrong_size (ulong (vm_end + 2 ^ 64 - vm_start)) b.len
    then (err einval, [])
    else (if remapped then ok else err eagain, act (map_call vm_start b) ∷ [])

-- `pcidriver_mmap`
unfoldable pub mmap : Bool → Privdata → ℕ → ℕ → Status × List Event
mmap remapped d vm_start vm_end =
    if d.mmap_mode == mmap_pci
    then (if leb d.mmap_area bar5
        then mmap_bar remapped d vm_start vm_end d.mmap_area
        else (err einval, []))
    else if d.mmap_mode == mmap_kmem
    then mmap_kmem_buffer remapped d vm_start vm_end
    else (err einval, [])

-- What the mapping of a BAR has to satisfy: the area is one of the six BARs, and the range of a BAR
-- shorter than a page has the BAR's length or a page's.
abbrev pub IsAllowed : Privdata → ℕ → ℕ → Type 0
IsAllowed d vm_start vm_end =
    let len = (get_or d.pdev.bars d.mmap_area no_bar).len in
    let size = ulong (vm_end + 2 ^ 64 - vm_start) in
    (d.mmap_area ≤ 5) × ((size ≡ len) ⊎ (page_size ≤ len) ⊎ (size ≡ page_size))

module _ (d : Privdata) (vm_start vm_end : ℕ) where
  -- In the mode PCIDRIVER_MMAP_PCI a BAR is mapped from the start of the user's range, and by one call,
  -- exactly if the area is one of the six BARs and the size check passes: a mapping of a BAR shorter
  -- than a page has the BAR's length or a page's. Otherwise, in this mode, no call is made, and the
  -- result is -EINVAL.
  pub mmap-bar :
      (remapped : Bool)
      → d.mmap_mode ≡ mmap_pci
      → (IsAllowed d vm_start vm_end
          × (mmap remapped d vm_start vm_end ≡ (
            if remapped then ok else err eagain,
            act (map_call vm_start (get_or d.pdev.bars d.mmap_area no_bar)) ∷ [],
          )))
        ⊎ ((¬ IsAllowed d vm_start vm_end) × (mmap remapped d vm_start vm_end ≡ (err einval, [])))
  unfolding mmap mmap_bar wrong_size
  mmap-bar remapped mode = ground arith

  -- A BAR of a page or more: the size of the user's range is not checked, and the whole BAR is
  -- mapped.
  pub mmap_bar_unchecked :
      d.mmap_mode ≡ mmap_pci
      → d.mmap_area ≤ 5
      → page_size ≤ (get_or d.pdev.bars d.mmap_area no_bar).len
      → mmap true d vm_start vm_end
        ≡ (ok, act (map_call vm_start (get_or d.pdev.bars d.mmap_area no_bar)) ∷ [])
  unfolding mmap mmap_bar wrong_size
  mmap_bar_unchecked mode area large = ground arith
