-- ===== src/Base/Bars.antt =====
-- `pcidriver_probe_irq`, `pcidriver_irq_unmap_bars` and `pcidriver_remove_irq` of int.c.
use fpga_pcie_drivers.Common.{
  ℕ, ◌+◌, Bool, false, ◌||◌, Option, none, some, List, [], ◌∷◌, ◌++◌, ◌==◌, if◌then◌else◌,
  replicate, length,
}
use fpga_pcie_drivers.Kernel.{
  Status, ok, err, eio, failed, Event, acquire, release, act, bar_region, bar_mapping, irq_handler,
  map_bar,
}
use fpga_pcie_drivers.Device.{Bar, Privdata, int_maxsources}

-- What the kernel answers for a BAR: to pci_request_region, and to ioremap.
pub record BarAnswer : Type 0 where
  pub request : Status
  pub remap : Option ℕ

-- What it answers to the setup of interrupts: the interrupt pin from the configuration space, none
-- if it cannot be read; whether the interrupt line can; and whether the handler was registered.
pub record IrqAnswer : Type 0 where
  pub bar : ℕ → BarAnswer
  pub pin : Option ℕ
  pub line : Bool
  pub handler : Bool

-- the BARs that the loop skips
abbrev pub skipped : Bar → Bool
skipped b = b.start == 0 || b.len == 0 || b.io

-- the loop over the BARs from `i` on: the status, `bars_kmapped` from `i` on, and the calls
unfoldable pub map_bars : (ℕ → BarAnswer) → ℕ → List Bar → Status × List (Option ℕ) × List Event
map_bars k i [] = (ok, [], [])
map_bars k i (b ∷ bs) =
    let (status, rest, calls) = map_bars k (i + 1) bs in
    let unmapped = none ∷ replicate (length bs) none in
    if skipped b then (status, none ∷ rest, calls) else elim (k i).request [
      | err e ↦ (err e, unmapped, [])
      | ok ↦ elim (k i).remap [
        | none ↦ (err eio, unmapped, acquire (bar_region i) ∷ act (map_bar i b.prefetch) ∷ [])
        | some a ↦ (
          status,
          some a ∷ rest,
          acquire (bar_region i) ∷ act (map_bar i b.prefetch) ∷ acquire (bar_mapping a) ∷ calls,
        )
      ]
    ]

-- whether the interrupt handler gets registered
abbrev pub irq_usable : IrqAnswer → Bool
irq_usable k = elim k.pin [
  | none ↦ false
  | some pin ↦ if pin == 0 then false else if k.line then k.handler else false
]

-- `pcidriver_probe_irq`
unfoldable pub probe_irq : IrqAnswer → Privdata → Status × Privdata × List Event
probe_irq k d =
    let (status, bars, calls) = map_bars k.bar 0 d.pdev.bars in
    let mapped = record d { bars_kmapped = bars } in
    let ready = record mapped {
      irq_outstanding = replicate int_maxsources 0;
      irq_enabled = irq_usable k;
    } in
    if failed status
    then (status, mapped, calls)
    else (ok, ready, calls ++ (if irq_usable k then acquire (irq_handler d.pdev.irq) ∷ [] else []))

-- the loop of `pcidriver_irq_unmap_bars` from BAR `i` on
unfoldable pub unmap_bars : ℕ → List (Option ℕ) → List Event
unmap_bars i [] = []
unmap_bars i (none ∷ bars) = unmap_bars (i + 1) bars
unmap_bars i (some a ∷ bars) =
    release (bar_mapping a) ∷ release (bar_region i) ∷ unmap_bars (i + 1) bars

-- `pcidriver_remove_irq`
unfoldable pub remove_irq : Privdata → List Event
remove_irq d =
    (if d.irq_enabled then release (irq_handler d.pdev.irq) ∷ [] else [])
    ++ unmap_bars 0 d.bars_kmapped
