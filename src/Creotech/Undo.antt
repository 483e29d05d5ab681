-- ===== src/Creotech/Undo.antt =====
-- What `fpga_probe` takes and what is given back. Resources are compared by number, under any test
-- on them.
use fpga_pcie_drivers.Common.{
  ℕ, ◌+◌, ◌*◌, ◌-◌, ◌^◌, ◌≡◌, ◌∙◌, ◌⊎◌, inl, inr, refl, Bool, true, false, some, List, [], ◌∷◌,
  ◌++◌, arith, count, one, if◌then◌else◌, Bool-cases, Option-cases,
}
use fpga_pcie_drivers.Kernel.{
  traces, act, set_master, pci_device, bar_mapping, msi, irq_handler, dma_channel, misc_device, ok,
  failed, Event, Resource, acquire, acquired, released, released-append, dma_buffer,
}
use fpga_pcie_drivers.Device.{ulong}
use fpga_pcie_drivers.Base.Taken.{none_released, taken, given_back}
use fpga_pcie_drivers.Creotech.Card.{Card, buf_size, fpga_init_device}
use fpga_pcie_drivers.Creotech.Probe.{
  ProbeAnswer, request_regions, fpga_probe_buffer, fpga_probe_irq, fpga_probe_regions, fpga_probe,
  fpga_remove,
}

released-regions : (bars : List ℕ) → released (request_regions bars) ≡ []
released-regions [] = refl
released-regions (bar ∷ bars) = released-regions bars

-- What the kernel has answered to a probe that returned 0, and what the probe has done.
record Done (k : ProbeAnswer) (c : Card) : Type 0 where
  region : ℕ
  cpu : ℕ
  bus : ℕ
  card : (fpga_probe k c).1 ≡ record c {
    base_start = k.start;
    base_len = ulong (k.last + 2 ^ 64 - k.start + 1);
    region = some region;
    irq = k.irq;
    buffer = cpu;
    buffer_hw_addr = bus;
  }
  calls :
      (fpga_probe k c).2
      ≡ ((((((acquire pci_device ∷ act set_master ∷ []) ++ request_regions k.bars)
                ++ acquire (bar_mapping region) ∷ [])
              ++ (if k.msi then acquire msi ∷ [] else []))
            ++ acquire (irq_handler k.irq) ∷ [])
          ++ acquire (dma_channel 1) ∷ [])
        ++ acquire (dma_buffer (2 * buf_size) cpu bus) ∷ []
        ++ acquire misc_device ∷ fpga_init_device (fpga_probe k c).1

buffer-Done :
    (k : ProbeAnswer) (region : ℕ) (c : Card) (done : List Event)
    → (fpga_probe_buffer k region c done).0 ≡ ok
    → (cpu : ℕ) × (bus : ℕ) × ((fpga_probe_buffer k region c done).1
        ≡ record c { buffer = cpu; buffer_hw_addr = bus })
      × ((fpga_probe_buffer k region c done).2
          ≡ (done ++ acquire (dma_buffer (2 * buf_size) cpu bus) ∷ [])
            ++ acquire misc_device ∷ fpga_init_device (fpga_probe_buffer k region c done).1)
unfolding fpga_probe_buffer
buffer-Done k region c done good = elim (Option-cases k.buffer) [
  | inl e ↦ absurd (ground arith)
  | inr ((cpu, bus), e) ↦ elim (Bool-cases k.registered) [
    | inl r ↦ (cpu, bus, ground arith, ground arith)
    | inr r ↦ absurd (ground arith)
  ]
]

irq-buffer :
    (k : ProbeAnswer) (region : ℕ) (c : Card) (done : List Event)
    → (fpga_probe_irq k region c done).0 ≡ ok
    → fpga_probe_irq k region c done
      ≡ fpga_probe_buffer k region
          (record c { irq = k.irq })
          (((done ++ (if k.msi then acquire msi ∷ [] else [])) ++ acquire (irq_handler k.irq) ∷ [])
            ++ acquire (dma_channel 1) ∷ [])
unfolding fpga_probe_irq
irq-buffer k region c done good = ground arith

regions-irq :
    (k : ProbeAnswer) (c : Card)
    → (fpga_probe_regions k c).0 ≡ ok
    → (region : ℕ) × (fpga_probe_regions k c
        ≡ fpga_probe_irq k region
            (record c { region = some region })
            (((acquire pci_device ∷ act set_master ∷ []) ++ request_regions k.bars)
              ++ acquire (bar_mapping region) ∷ []))
unfolding fpga_probe_regions
regions-irq k c good = elim (Option-cases k.remap) [
  | inl e ↦ absurd (ground arith)
  | inr (region, e) ↦ (region, ground arith)
]

probe-regions :
    (k : ProbeAnswer) (c : Card)
    → (fpga_probe k c).0 ≡ ok
    → fpga_probe k c
      ≡ fpga_probe_regions k
          (record c { base_start = k.start; base_len = ulong (k.last + 2 ^ 64 - k.start + 1) })
unfolding fpga_probe
probe-regions k c good = ground arith

probe-Done : (k : ProbeAnswer) (c : Card) → (fpga_probe k c).0 ≡ ok → Done k c
probe-Done k c good =
    let p = probe-regions k c good in
    let (region, q) = regions-irq k _ (rw p at good) in
    let r = p ∙ q in
    let s = r ∙ irq-buffer k region _ _ (rw r at good) in
    let (cpu, bus, card, calls) = buffer-Done k region _ _ (rw s at good) in
    record { region = region; cpu = cpu; bus = bus; card = rw s card; calls = rw s calls }

module _ (t : Resource → Bool) (k : ProbeAnswer) where
  -- No matter how far a probe of a card with BAR 0 alone got before it failed, it has given back all
  -- that it took, unless it was the interrupt with message signaled interrupts enabled, or the
  -- character device.
  pub fpga_probe_fails_balanced :
      (c : Card)
      → failed (fpga_probe k c).0 ≡ true
      → k.bars ≡ 0 ∷ []
      → (k.irq_requested ≡ true) ⊎ (k.msi ≡ false)
      → k.registered ≡ true
      → count t (released (fpga_probe k c).2) ≡ count t (acquired (fpga_probe k c).2)
  unfolding fpga_probe fpga_probe_regions fpga_probe_irq fpga_probe_buffer fpga_init_device count
  fpga_probe_fails_balanced c bad bars irq registered = ground arith

  -- A card whose first BAR is BAR 0 was probed, and is removed: the probe gave nothing back, and the
  -- removal gives back every resource that the probe
  -- took as often as it was taken, but for two. The other BARs' regions are kept. And
  -- the buffer of twice BUF_SIZE bytes is given back as one of BUF_SIZE bytes.
  pub fpga_remove-fpga_probe :
      (c : Card) (rest : List ℕ)
      → (fpga_probe k c).0 ≡ ok
      → k.bars ≡ 0 ∷ rest
      → let d = (fpga_probe k c).1 in
        (released (fpga_probe k c).2 ≡ [])
        × (count t (acquired (fpga_probe k c).2)
              + one t (dma_buffer buf_size d.buffer d.buffer_hw_addr)
            ≡ count t (released (fpga_remove k.msi k.irq d))
              + one t (dma_buffer (2 * buf_size) d.buffer d.buffer_hw_addr)
              + count t (acquired (request_regions rest)))
  unfolding fpga_init_device fpga_remove
  fpga_remove-fpga_probe c rest done bars =
      let d = probe-Done k c done in
      rw (d.calls, d.card, bars)
        (
          simp (released-append, released-regions, none_released) refl,
          simp (traces, taken, given_back) (omega arith),
        )
