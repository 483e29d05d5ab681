-- ===== src/Creotech/Probe.antt =====
-- `fpga_probe`, `fpga_remove`, `fpga_init` and `fpga_exit` of pcie.c.
use fpga_pcie_drivers.Common.{
  ℕ, ◌+◌, ◌-◌, ◌*◌, ◌^◌, Bool, ◌||◌, Option, none, some, List, [], ◌∷◌, ◌++◌, ◌==◌, if◌then◌else◌,
}
use fpga_pcie_drivers.Kernel.{
  Status, ok, err, other, Event, acquire, release, act, set_master, pci_device, pci_driver,
  bar_region, bar_mapping, msi, irq_handler, dma_channel, dma_buffer, misc_device,
}
use fpga_pcie_drivers.Device.{ulong}
use fpga_pcie_drivers.Creotech.Card.{Card, buf_size, fpga_init_device}

-- What the kernel answers to a probe: whether each call succeeds; the BARs that the device has, by
-- number, and the first and last address of BAR 0; the interrupt, after pci_enable_msi; and the
-- buffer's cpu and bus address.
pub record ProbeAnswer : Type 0 where
  pub enabled : Bool
  pub bars : List ℕ
  pub start : ℕ
  pub last : ℕ
  pub requested : Bool
  pub remap : Option ℕ
  pub msi : Bool
  pub irq : ℕ
  pub irq_requested : Bool
  pub mask_set : Bool
  pub dma_requested : Bool
  pub buffer : Option (ℕ × ℕ)
  pub registered : Bool

-- pci_request_regions
abbrev pub request_regions : List ℕ → List Event
request_regions [] = []
request_regions (bar ∷ bars) = acquire (bar_region bar) ∷ request_regions bars

-- pci_disable_msi, which does nothing where the interrupts are not enabled
abbrev pub disable_msi : Bool → List Event
disable_msi enabled = if enabled then release msi ∷ [] else []

-- the error path, from each of its labels on
abbrev pub err_region : List Event
err_region = release pci_device ∷ []

abbrev pub err_ioremap : List Event
err_ioremap = release (bar_region 0) ∷ err_region

abbrev pub err_irq_request : ℕ → List Event
err_irq_request region = release (bar_mapping region) ∷ err_ioremap

abbrev pub err_dma_mask : ProbeAnswer → ℕ → List Event
err_dma_mask k region = release (irq_handler k.irq) ∷ (disable_msi k.msi ++ err_irq_request region)

abbrev pub err_buffer : ProbeAnswer → ℕ → List Event
err_buffer k region = release (dma_channel 1) ∷ err_dma_mask k region

abbrev pub err_char_dev : ProbeAnswer → ℕ → ℕ → ℕ → List Event
err_char_dev k region cpu bus = release (dma_buffer buf_size cpu bus) ∷ err_buffer k region

-- `-1`
abbrev pub failure : Status
failure = err (other 1)

-- from the buffer on; `done` are the calls so far
unfoldable pub fpga_probe_buffer : ProbeAnswer → ℕ → Card → List Event → Status × Card × List Event
fpga_probe_buffer k region c done = elim k.buffer [
  | none ↦ (failure, c, done ++ err_buffer k region)
  | some (cpu, bus) ↦
      let ready = record c { buffer = cpu; buffer_hw_addr = bus } in
      let taken = done ++ acquire (dma_buffer (2 * buf_size) cpu bus) ∷ [] in
      if k.registered
      then (ok, ready, taken ++ acquire misc_device ∷ fpga_init_device ready)
      else (failure, ready, taken ++ err_char_dev k region cpu bus)
]

-- from pci_enable_msi on
unfoldable pub fpga_probe_irq : ProbeAnswer → ℕ → Card → List Event → Status × Card × List Event
fpga_probe_irq k region c done =
    let ready = record c { irq = k.irq } in
    let enabled = done ++ (if k.msi then acquire msi ∷ [] else []) in
    let requested = enabled ++ acquire (irq_handler k.irq) ∷ [] in
    if k.irq_requested
    then (if k.mask_set
        then (if k.dma_requested
            then fpga_probe_buffer k region ready (requested ++ acquire (dma_channel 1) ∷ [])
            else (failure, ready, requested ++ err_dma_mask k region))
        else (failure, ready, requested ++ err_dma_mask k region))
    else (failure, ready, enabled ++ err_irq_request region)

-- from the request of the regions on, the device enabled
unfoldable pub fpga_probe_regions : ProbeAnswer → Card → Status × Card × List Event
fpga_probe_regions k c =
    let enabled = acquire pci_device ∷ act set_master ∷ [] in
    let taken = enabled ++ request_regions k.bars in
    if k.requested
    then elim k.remap [
      | none ↦ (failure, record c { region = none }, taken ++ err_ioremap)
      | some region ↦
          fpga_probe_irq k region (record c { region = some region })
            (taken ++ acquire (bar_mapping region) ∷ [])
    ]
    else (failure, c, enabled ++ err_region)

-- `fpga_probe`
unfoldable pub fpga_probe : ProbeAnswer → Card → Status × Card × List Event
fpga_probe k c =
    let len = ulong (k.last + 2 ^ 64 - k.start + 1) in
    let based = record c { base_start = k.start; base_len = len } in
    if k.enabled
    then (if k.start == 0 || len == 0
        then (failure, based, acquire pci_device ∷ act set_master ∷ err_region)
        else fpga_probe_regions k based)
    else (failure, c, [])

-- `fpga_remove`; `enabled` is whether message signaled interrupts are, and `irq` is `pdev->irq`.
unfoldable pub fpga_remove : Bool → ℕ → Card → List Event
fpga_remove enabled irq c =
    release (dma_buffer buf_size c.buffer c.buffer_hw_addr)
    ∷ release (irq_handler irq)
    ∷ (disable_msi enabled
        ++ release (dma_channel 1)
          ∷ ((elim c.region [ none ↦ [] | some region ↦ release (bar_mapping region) ∷ [] ])
              ++ release (bar_region 0) ∷ release pci_device ∷ release misc_device ∷ []))

-- `fpga_init`, after the probes that pci_register_driver makes; `c` is the card that they leave.
unfoldable pub fpga_init : Status → Card → Status × Card × List Event
fpga_init registered c = elim registered [
  | err e ↦ (err e, c, [])
  | ok ↦ (
    ok,
    record c { tlp_size = 32; tlp_count = 128; dma_count = 1; pattern = 0x2a2a2a2a },
    acquire pci_driver ∷ [],
  )
]

-- `fpga_exit`
unfoldable pub fpga_exit : List Event
fpga_exit = release pci_driver ∷ []
