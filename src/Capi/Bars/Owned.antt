-- ===== src/Capi/Bars/Owned.antt =====
-- How `pd_mapBAR` of pciDriver_Capi.c ends, and `pd_unmapBAR` after it.
use fpga_pcie_drivers.Common.{
  ℕ, ◌+◌, ◌-◌, ◌%◌, ◌^◌, ◌≤◌, ◌<◌, ◌≡◌, ◌⊎◌, ◌∙◌, refl, sym, ap, inl, inr, true, false, Option,
  none, some, List, [], ◌∷◌, arith, get_or, ltb, Bool-cases, Option-cases,
}
use mathlib.Core.Path.{subst}
use fpga_pcie_drivers.Kernel.{ok, failed, Event, act, munmap}
use fpga_pcie_drivers.Device.{Bar, Privdata, ulong, mmap_pci, page_size}
use fpga_pcie_drivers.Base.Mmap.{no_bar, map_call}
use fpga_pcie_drivers.Ioctl.Config.{
  PciBoardInfo, silent, ioctl_mmap_mode, ioctl_mmap_area, ioctl_pci_info, bar_starts, bar_lengths,
}
use fpga_pcie_drivers.Capi.Pagemask.{pd_getpagemask, pagemask_loop}
use fpga_pcie_drivers.Capi.Process.{Process, stack, VmAnswer}
use fpga_pcie_drivers.Capi.Buffers.Mapped.{unmapped}
use fpga_pcie_drivers.Capi.Bars.{InfoAnswer, MappedBar, map_locked, pd_map_bar, pd_unmap_bar}
use fpga_pcie_drivers.Capi.Bars.Mapped.{offset_known, get_six, info_known, bar_mapped}

pci_called :
    (d : Privdata)
    → ioctl_mmap_mode d mmap_pci ≡ (ok, silent, record d { mmap_mode = mmap_pci }, [])
unfolding ioctl_mmap_mode
pci_called d = refl

area_called :
    (d : Privdata) (bar : ℕ)
    → bar ≤ 5
    → ioctl_mmap_area d bar ≡ (ok, silent, record d { mmap_area = bar }, [])
unfolding ioctl_mmap_area
area_called d bar h = ground arith

info_good :
    (k : InfoAnswer) (d : Privdata)
    → k.pin.0 ≡ ok
    → k.line.0 ≡ ok
    → ¬ (failed (ioctl_pci_info stack k.pin k.line d k.junk).0 ≡ true)
unfolding ioctl_pci_info
info_good k d pin line bad = ground arith

module _ (k : InfoAnswer) (v : VmAnswer) (p : Process) (bar : ℕ) where
  abbrev the_bar : Bar
  the_bar = get_or p.device.pdev.bars bar no_bar

  -- the device, set up to map the BAR
  abbrev set_up : Privdata
  set_up = record p.device { mmap_mode = mmap_pci; mmap_area = bar }

  -- What holds of a mapping of a BAR, if it returns and if not.
  abbrev Outcome : MappedBar → Type 0
  Outcome none = p.locked ≡ true
  Outcome (some (none, q, calls)) = q.locked ≡ p.locked
  Outcome (some (some ptr, q, calls)) =
      (mem : ℕ) × (v.start ≡ some mem)
      × (ptr ≡ ulong (mem + the_bar.start % page_size))
      × (calls ≡ act (map_call mem the_bar) ∷ [])
      × (q ≡ record { device = set_up; locked = false })
      × (p.locked ≡ false)

  module _ (small : the_bar.len < 2 ^ 63) (valid : bar ≤ 5) where
    locked_Outcome :
        (i : PciBoardInfo)
        → i.bar_start ≡ bar_starts p.device.pdev.bars
        → i.bar_length ≡ bar_lengths p.device.pdev.bars
        → p.locked ≡ false
        → Outcome (map_locked v i (record { device = p.device; locked = true }) bar [])
    unfolding map_locked pd_getpagemask pagemask_loop
    locked_Outcome i starts lengths free =
        let start = get_six (λ b. b.start) p.device.pdev.bars bar valid in
        let length = get_six (λ b. b.len) p.device.pdev.bars bar valid in
        let moded = pci_called p.device in
        let area = area_called (record p.device { mmap_mode = mmap_pci }) bar valid in
        simp (moded, area, lengths, length)
          (elim (Option-cases v.start) [
            | inl e ↦ simp (unmapped v set_up the_bar.len e) (sym free)
            | inr (mem, e) ↦
                let call = bar_mapped v set_up mem e refl valid small in
                simp call (elim (Bool-cases v.remapped) [
                  | inl w ↦
                      simp (w, moded, area, lengths, length, call, starts, start, offset_known)
                        (mem, e, refl, refl, refl, free)
                  | inr f ↦ simp f (sym free)
                ])
          ])

    outcome : Outcome (pd_map_bar k v p bar)
    unfolding pd_map_bar
    outcome = elim (info_known k p) [
      | inl bad ↦ let inside : ltb 5 bar ≡ false = ground arith in simp (inside, bad) refl
      | inr (i, told, starts, lengths) ↦
          let inside : ltb 5 bar ≡ false = ground arith in
          elim (Bool-cases p.locked) [
            | inl taken ↦ simp (inside, told, taken) refl
            | inr free ↦ simp (inside, told, free) (locked_Outcome i starts lengths free)
          ]
    ]

    -- BARs have less than 2 ^ 63 bytes. `pd_mapBAR` waits forever only if the mutex is taken. If it
    -- returns the mutex is as it was before, on all errors, too.
    pd_map_bar-locked :
        ((pd_map_bar k v p bar ≡ none) × (p.locked ≡ true))
        ⊎ ((r : Option ℕ) × (q : Process) × (calls : List Event) × (pd_map_bar k v p bar
              ≡ some (r, q, calls))
            × (q.locked ≡ p.locked))
    pd_map_bar-locked = kept (pd_map_bar k v p bar) outcome
      where
        kept :
            (out : MappedBar)
            → Outcome out
            → ((out ≡ none) × (p.locked ≡ true))
              ⊎ ((r : Option ℕ) × (q : Process) × (calls : List Event) × (out ≡ some (r, q, calls))
                  × (q.locked ≡ p.locked))
        kept none h = inl (refl, h)
        kept (some (none, q, calls)) h = inr (none, q, calls, refl, h)
        kept (some (some ptr, q, calls)) h =
            let (mem, e, at, did, after, free) = h in
            inr (some ptr, q, calls, refl, ap (λ r. r.locked) after ∙ sym free)

    unmaps :
        (other : InfoAnswer) (mem : ℕ)
        → other.pin.0 ≡ ok
        → other.line.0 ≡ ok
        → mem < 2 ^ 64
        → pd_unmap_bar other
            (record { device = set_up; locked = false })
            bar
            (ulong (mem + the_bar.start % page_size))
          ≡ some (0, act (munmap mem the_bar.len) ∷ [])
    unfolding pd_unmap_bar pd_getpagemask pagemask_loop
    unmaps other mem pin line low =
        let inside : ltb 5 bar ≡ false = ground arith in
        let start = get_six (λ b. b.start) p.device.pdev.bars bar valid in
        let length = get_six (λ b. b.len) p.device.pdev.bars bar valid in
        let offset = the_bar.start % page_size in
        let back : ulong (ulong (mem + offset) + 2 ^ 64 - offset) ≡ mem = omega arith in
        elim (info_known other (record { device = set_up; locked = false })) [
          | inl bad ↦ absurd (info_good other set_up pin line bad)
          | inr (i, told, starts, lengths) ↦
              simp (inside, told, starts, lengths, start, length, offset_known, back) refl
        ]

    -- BARs have less than 2 ^ 63 bytes, the process's memory is below 2 ^ 64, and the driver can read
    -- its two configuration bytes. If `pd_mapBAR` returns a pointer it has mapped the BAR at the start of
    -- the kernel's range, by one call, and points to the BAR's place within its page; and `pd_unmapBAR`
    -- of that pointer unmaps exactly that range.
    pub pd_unmap_bar-pd_map_bar :
        (other : InfoAnswer) (mem ptr : ℕ) (q : Process) (calls : List Event)
        → other.pin.0 ≡ ok
        → other.line.0 ≡ ok
        → v.start ≡ some mem
        → mem < 2 ^ 64
        → pd_map_bar k v p bar ≡ some (some ptr, q, calls)
        → (ptr ≡ ulong (mem + the_bar.start % page_size))
          × (calls ≡ act (map_call mem the_bar) ∷ [])
          × (pd_unmap_bar other q bar ptr ≡ some (0, act (munmap mem the_bar.len) ∷ []))
    pd_unmap_bar-pd_map_bar other mem ptr q calls pin line starts low e =
        let (mem', starts', at, did, after, free) = subst Outcome e outcome in
        let same : mem' ≡ mem = ground arith in
        let there : ptr ≡ ulong (mem + the_bar.start % page_size) =
          at ∙ ap (λ m. ulong (m + the_bar.start % page_size)) same in
        (
          there,
          did ∙ ap (λ m. act (map_call m the_bar) ∷ []) same,
          rw (there, after) (unmaps other mem pin line low),
        )
