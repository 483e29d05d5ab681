-- ===== src/Base/Undo.antt =====
-- What `pcidriver_probe` takes and what is given back: by `pcidriver_remove`, or by its own error
-- paths. Resources are compared by number, under any test on them.
use fpga_pcie_drivers.Common.{
  ℕ, ◌+◌, ◌<◌, ◌≡◌, ◌∙◌, refl, sym, Bool, false, none, some, List, [], ◌∷◌, ◌++◌, arith, ltb, ◌==◌,
  ◌&&◌, if◌then◌else◌, count, count-append, count-cons, count-nil, one,
}
use fpga_pcie_drivers.Kernel.{
  traces, ok, failed, Event, Resource, acquire, acquired, released, released-append, set_master,
  act, pci_device, block, char_device, class_device, irq_handler,
}
use fpga_pcie_drivers.Device.{PciDev, Privdata}
use fpga_pcie_drivers.Kmem.Cleanup.{kmem_free_all_lem}
use fpga_pcie_drivers.Base.Bars.{irq_usable, map_bars, probe_irq, remove_irq}
use fpga_pcie_drivers.Base.Probe.{
  mprace1_vendor_id, mprace1_device_id, ProbeAnswer, attributes, create_files, maxdevices, is_full,
  new_privdata, probe_attributes, probe_private, probe, remove, teardown,
}
use fpga_pcie_drivers.Base.Taken.{
  acquired-unmap_bars, released-create_files, remove_files-create_files, taken, probe_irq-Ready,
}

-- What a probe has taken when `pcidriver_probe_irq` has returned 0 and an attribute or the character
-- device could not be made, less what its error path gives back.
abbrev pub kept : ProbeAnswer → ℕ → PciDev → List Event
kept k count pdev =
    acquire (class_device count)
      ∷ (if irq_usable k.irq then acquire (irq_handler pdev.irq) ∷ [] else [])
    ++ create_files (if ltb k.files attributes then k.files else attributes)

probe_attributes-done :
    (k : ProbeAnswer) (c p : ℕ) (e d : Privdata) (done : List Event)
    → (probe_attributes k c p e done).2 ≡ some d
    → ((probe_attributes k c p e done).0 ≡ ok)
      × (e ≡ d)
      × ((probe_attributes k c p e done).3
          ≡ done ++ create_files attributes ++ acquire (char_device e.devno) ∷ [])
unfolding probe_attributes
probe_attributes-done k c p e d done found = ground arith

probe_attributes-lost :
    (k : ProbeAnswer) (c p : ℕ) (e : Privdata) (done : List Event)
    → (probe_attributes k c p e done).2 ≡ none
    → ((probe_attributes k c p e done).0 ≡ (if ltb k.files attributes then ok else k.cdev))
      × ((probe_attributes k c p e done).3
          ≡ done
            ++ create_files (if ltb k.files attributes then k.files else attributes)
            ++ teardown p e)
unfolding probe_attributes
probe_attributes-lost k c p e done lost = ground arith

-- the calls of a probe before the private data
before : PciDev → List Event
before pdev =
    (if pdev.vendor == mprace1_vendor_id && pdev.device == mprace1_device_id
      then act set_master ∷ []
      else [])
    ++ acquire pci_device ∷ []

acquired-before : (pdev : PciDev) → acquired (before pdev) ≡ pci_device ∷ []
unfolding before
acquired-before pdev = ground arith

released-before : (pdev : PciDev) → released (before pdev) ≡ []
unfolding before
released-before pdev = ground arith

few-is_full : (c : ℕ) → c < maxdevices → is_full c ≡ false
unfolding is_full
few-is_full c few = ground arith

probe-private :
    (k : ProbeAnswer) (c : ℕ) (pdev : PciDev) (p : ℕ)
    → k.enable ≡ ok
    → is_full c ≡ false
    → k.block ≡ some p
    → probe k c pdev ≡ probe_private k c pdev p (before pdev)
unfolding probe before
probe-private k c pdev p enabled few b = ground arith

probe-found :
    (k : ProbeAnswer) (c : ℕ) (pdev : PciDev) (d : Privdata)
    → (probe k c pdev).2 ≡ some d
    → (k.enable ≡ ok) × (is_full c ≡ false)
unfolding probe
probe-found k c pdev d found = ground arith

private-found :
    (k : ProbeAnswer) (c : ℕ) (pdev : PciDev) (p : ℕ) (d : Privdata) (done : List Event)
    → (probe_private k c pdev p done).2 ≡ some d
    → failed (map_bars k.irq.bar 0 pdev.bars).0 ≡ false
unfolding probe_private probe_irq
private-found k c pdev p d done found = ground arith

-- `pcidriver_probe_irq` has returned 0.
private-attributes :
    (k : ProbeAnswer) (c : ℕ) (pdev : PciDev) (p : ℕ) (done : List Event)
    → (probe_irq k.irq (new_privdata c pdev)).0 ≡ ok
    → probe_private k c pdev p done
      ≡ probe_attributes k c p (probe_irq k.irq (new_privdata c pdev)).1 (
          done
          ++ acquire (block p)
            ∷ acquire (class_device c)
            ∷ (probe_irq k.irq (new_privdata c pdev)).2)
unfolding probe_private
private-attributes k c pdev p done ready = rw ready refl

-- all that a device holds that has no kernel buffers
removed :
    (t : Resource → Bool) (p c : ℕ) (d : Privdata)
    → d.devno ≡ c
    → d.kmem_list ≡ []
    → count t (released (remove p d))
      ≡ count t (acquired (create_files attributes))
        + count t (released (remove_irq d))
        + one t (char_device c)
        + one t (class_device c)
        + one t (block p)
        + one t pci_device
unfolding remove
removed t p c d number none_left =
    let freed = (kmem_free_all_lem d).2 in
    rw (released-append, released-append, released-append, freed, none_left, number)
      (simp (count-append, count-cons, count-nil)
        (omega (arith, remove_files-create_files t attributes)))

module _ (t : Resource → Bool) (k : ProbeAnswer) (c : ℕ) (pdev : PciDev) (p : ℕ) where
  -- A device that was probed is removed: every resource that the probe took is given back, as often
  -- as it was taken, and the probe itself gave nothing back.
  pub remove-probe :
      (d : Privdata)
      → k.block ≡ some p
      → (probe k c pdev).2 ≡ some d
      → ((probe k c pdev).0 ≡ ok)
        × (released (probe k c pdev).3 ≡ [])
        × (count t (released (remove p d)) ≡ count t (acquired (probe k c pdev).3))
  remove-probe d b found =
      let early = probe-found k c pdev d found in
      let entered = probe-private k c pdev p early.0 early.1 b in
      let started : (probe_private k c pdev p (before pdev)).2 ≡ some d = rw entered at found in
      let r =
        probe_irq-Ready t k.irq (new_privdata c pdev) (private-found k c pdev p d _ started) in
      let whole = entered ∙ private-attributes k c pdev p (before pdev) r.status in
      let ended = probe_attributes-done k c p _ d _ (rw whole at found) in
      let gone = removed t p c (probe_irq k.irq (new_privdata c pdev)).1 r.devno r.empty in
      rw (whole, ended.0, ended.2)
        (
          refl,
          simp (released-append, released-before, r.given, released-create_files) refl,
          rw (sym ended.1)
              (simp (traces, acquired-before, r.devno) (omega (arith, gone, r.undone))),
        )

  -- An attribute or the character device fails after the BARs were mapped: the probe returns 0 if it
  -- was an attribute, and what cdev_add returned if not. The error path gives back all that was
  -- taken but the class device, the interrupt handler and the attributes, which are kept.
  pub probe_keeps :
      k.enable ≡ ok
      → c < maxdevices
      → k.block ≡ some p
      → failed (map_bars k.irq.bar 0 pdev.bars).0 ≡ false
      → (probe k c pdev).2 ≡ none
      → ((probe k c pdev).0 ≡ (if ltb k.files attributes then ok else k.cdev))
        × (count t (acquired (probe k c pdev).3)
            ≡ count t (released (probe k c pdev).3) + count t (acquired (kept k c pdev)))
  probe_keeps enabled few b mapped lost =
      let entered = probe-private k c pdev p enabled (few-is_full c few) b in
      let r = probe_irq-Ready t k.irq (new_privdata c pdev) mapped in
      let whole = entered ∙ private-attributes k c pdev p (before pdev) r.status in
      let ended = probe_attributes-lost k c p _ _ (rw whole at lost) in
      let held = r.bars in
      rw (whole, ended.1)
        (
          ended.0,
          simp
              (
                traces, acquired-before, released-before, r.given, released-create_files, taken,
                acquired-unmap_bars,
              )
              (omega (arith, held)),
        )
