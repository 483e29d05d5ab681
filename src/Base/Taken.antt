-- ===== src/Base/Taken.antt =====
-- What the setup of the BARs, the interrupt and the attributes takes, and what gives it back.
use fpga_pcie_drivers.Common.{
  ℕ, zero, suc, ◌+◌, ◌≡◌, refl, Bool, true, false, Option, none, some, List, [], ◌∷◌, arith,
  if◌then◌else◌, count, one,
}
use fpga_pcie_drivers.Kernel.{
  traces, ok, failed, Resource, acquire, release, acquired, released, released-append, irq_handler,
}
use fpga_pcie_drivers.Device.{Bar, Privdata}
use fpga_pcie_drivers.Base.Bars.{
  BarAnswer, IrqAnswer, irq_usable, map_bars, probe_irq, unmap_bars, remove_irq,
}
use fpga_pcie_drivers.Base.Probe.{create_files, remove_files}

released-map_bars : (k : ℕ → BarAnswer) (i : ℕ) (bs : List Bar) → released (map_bars k i bs).2 ≡ []
unfolding map_bars
released-map_bars k i [] = refl
released-map_bars k i (b ∷ bs) = ground (arith, released-map_bars k (i + 1) bs)

pub acquired-unmap_bars : (i : ℕ) (bars : List (Option ℕ)) → acquired (unmap_bars i bars) ≡ []
unfolding unmap_bars
acquired-unmap_bars i [] = refl
acquired-unmap_bars i (none ∷ bars) = acquired-unmap_bars (i + 1) bars
acquired-unmap_bars i (some a ∷ bars) = acquired-unmap_bars (i + 1) bars

pub released-create_files : (n : ℕ) → released (create_files n) ≡ []
unfolding create_files
released-create_files zero = refl
released-create_files (suc n) = rw (released-append, released-create_files n) refl

-- All BARs were mapped: what was taken is what unmapping gives back.
unmap_bars-map_bars :
    (t : Resource → Bool) (k : ℕ → BarAnswer) (i : ℕ) (bs : List Bar)
    → (map_bars k i bs).0 ≡ ok
    → count t (acquired (map_bars k i bs).2) ≡ count t (released (unmap_bars i (map_bars k i bs).1))
unfolding map_bars unmap_bars count
unmap_bars-map_bars t k i [] done = refl
unmap_bars-map_bars t k i (b ∷ bs) done = ground (arith, unmap_bars-map_bars t k (i + 1) bs)

pub remove_files-create_files :
    (t : Resource → Bool) (n : ℕ)
    → count t (released (remove_files n)) ≡ count t (acquired (create_files n))
unfolding create_files remove_files
remove_files-create_files t zero = refl
remove_files-create_files t (suc n) = simp traces (rw (remove_files-create_files t n) refl)

-- What is known of a device after `pcidriver_probe_irq` has returned 0.
pub record Ready (t : Resource → Bool) (k : IrqAnswer) (d : Privdata) : Type 0 where
  pub status : (probe_irq k d).0 ≡ ok
  pub given : released (probe_irq k d).2 ≡ []
  pub bars :
      count t (acquired (probe_irq k d).2)
      ≡ count t (released (unmap_bars 0 (probe_irq k d).1.bars_kmapped))
        + (if irq_usable k then one t (irq_handler d.pdev.irq) else 0)
  pub undone :
      count t (acquired (probe_irq k d).2) ≡ count t (released (remove_irq (probe_irq k d).1))
  pub devno : (probe_irq k d).1.devno ≡ d.devno
  pub empty : (probe_irq k d).1.kmem_list ≡ d.kmem_list

pub none_released : (u : Bool) (r : Resource) → released (if u then acquire r ∷ [] else []) ≡ []
none_released u r = ground arith

pub taken :
    (u : Bool) (r : Resource) (t : Resource → Bool)
    → count t (acquired (if u then acquire r ∷ [] else [])) ≡ (if u then one t r else 0)
taken true r t = simp traces (omega arith)
taken false r t = simp traces refl

pub given_back :
    (u : Bool) (r : Resource) (t : Resource → Bool)
    → count t (released (if u then release r ∷ [] else [])) ≡ (if u then one t r else 0)
given_back true r t = simp traces (omega arith)
given_back false r t = simp traces refl

pub probe_irq-Ready :
    (t : Resource → Bool) (k : IrqAnswer) (d : Privdata)
    → failed (map_bars k.bar 0 d.pdev.bars).0 ≡ false
    → Ready t k d
unfolding probe_irq remove_irq
probe_irq-Ready t k d h =
    let done : (map_bars k.bar 0 d.pdev.bars).0 ≡ ok = ground arith in
    let b = unmap_bars-map_bars t k.bar 0 d.pdev.bars done in
    let calls = released-map_bars k.bar 0 d.pdev.bars in
    record {
      status = rw (h, probe_irq) refl;
      given =
          rw (h, released-append, calls) (none_released (irq_usable k) (irq_handler d.pdev.irq));
      bars = rw h (simp (traces, taken) (omega (arith, b)));
      undone = rw h (simp (traces, taken, given_back) (omega (arith, b)));
      devno = rw h refl;
      empty = rw h refl;
    }
