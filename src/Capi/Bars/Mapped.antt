-- ===== src/Capi/Bars/Mapped.antt =====
-- BARs that a process has mapped by `pd_mapBAR` of pciDriver_Capi.c.
use fpga_pcie_drivers.Common.{
  ℕ, zero, suc, ◌+◌, ◌-◌, ◌%◌, ◌^◌, ◌≤◌, ◌<◌, ◌≡◌, ◌⊎◌, refl, inl, inr, true, false, none, some,
  List, [], ◌∷◌, arith, get_or, if◌then◌else◌,
}
use Prim.Native.Nat.{bit_and}
use fpga_pcie_drivers.Kernel.{ok, failed, status-cases, act}
use fpga_pcie_drivers.Device.{Bar, Privdata, ulong, uint, mmap_pci, page_size}
use fpga_pcie_drivers.Kmem.{wrong_size}
use fpga_pcie_drivers.Base.Mmap.{no_bar, mmap, mmap_bar, map_call}
use fpga_pcie_drivers.Ioctl.Config.{PciBoardInfo, info, ioctl_pci_info, bar_starts, bar_lengths}
use fpga_pcie_drivers.Capi.Pagemask.{pd_getpagemask, pagemask_loop, bit_and-mask}
use fpga_pcie_drivers.Capi.Process.{Process, VmAnswer, stack, mmap_device, page_align}
use fpga_pcie_drivers.Capi.Bars.{InfoAnswer, board_info, pd_get_id}

-- `pd_getID` gives nothing but 0, 1 or -1: of the two numbers it tells only whether one is not 0.
pub pd_get_id_lem :
    (k : InfoAnswer) (p : Process)
    → k.pin.0 ≡ ok
    → k.line.0 ≡ ok
    → ((pd_get_id k p ≡ 0) × (p.device.pdev.vendor ≡ 0) × (p.device.pdev.device ≡ 0))
      ⊎ ((pd_get_id k p ≡ 1) × (1 ≤ p.device.pdev.vendor + p.device.pdev.device))
unfolding pd_get_id ioctl_pci_info
pd_get_id_lem k p pin line = ground arith

-- the page's mask
pub mask_known : pd_getpagemask page_size ≡ some 4095
unfolding pd_getpagemask pagemask_loop
mask_known = refl

pub offset_known : (start : ℕ) → uint (bit_and start 4095) ≡ start % page_size
offset_known start = let low = bit_and-mask 12 start in omega (arith, low)

-- a list of the six BARs' numbers
pub get_six :
    (f : Bar → ℕ) (bs : List Bar) (bar : ℕ)
    → bar ≤ 5
    → get_or
        (f (get_or bs 0 no_bar)
          ∷ f (get_or bs 1 no_bar)
          ∷ f (get_or bs 2 no_bar)
          ∷ f (get_or bs 3 no_bar)
          ∷ f (get_or bs 4 no_bar)
          ∷ f (get_or bs 5 no_bar)
          ∷ [])
        bar
        0
      ≡ f (get_or bs bar no_bar)
get_six f bs zero h = refl
get_six f bs (suc zero) h = refl
get_six f bs (suc (suc zero)) h = refl
get_six f bs (suc (suc (suc zero))) h = refl
get_six f bs (suc (suc (suc (suc zero)))) h = refl
get_six f bs (suc (suc (suc (suc (suc zero))))) h = refl
get_six f bs (suc (suc (suc (suc (suc (suc n)))))) h = absurd (omega arith)

-- What the ioctl tells: either it fails, or it gives the BARs of the device.
pub info_known :
    (k : InfoAnswer) (p : Process)
    → (failed (board_info k p).0 ≡ true)
      ⊎ ((i : PciBoardInfo) × (ioctl_pci_info stack k.pin k.line p.device k.junk
            ≡ (ok, info i, p.device, []))
          × (i.bar_start ≡ bar_starts p.device.pdev.bars)
          × (i.bar_length ≡ bar_lengths p.device.pdev.bars))
unfolding ioctl_pci_info
info_known k p = elim (status-cases k.pin.0) [
  | inr bad ↦ inl (ground arith)
  | inl pin ↦ elim (status-cases k.line.0) [
    | inr bad ↦ inl (ground arith)
    | inl line ↦
        inr
          ((board_info k p).1, simp (pin, line) refl, simp (pin, line) refl, simp (pin, line) refl)
  ]
]

-- A BAR is mapped by the whole pages that it needs.
pub bar_mapped :
    (v : VmAnswer) (d : Privdata) (mem : ℕ)
    → v.start ≡ some mem
    → d.mmap_mode ≡ mmap_pci
    → d.mmap_area ≤ 5
    → (get_or d.pdev.bars d.mmap_area no_bar).len < 2 ^ 63
    → mmap_device v d (get_or d.pdev.bars d.mmap_area no_bar).len ≡ (
      if v.remapped then some mem else none,
      act (map_call mem (get_or d.pdev.bars d.mmap_area no_bar)) ∷ [],
    )
unfolding mmap_device mmap mmap_bar
bar_mapped v d mem starts mode area small =
    let len = (get_or d.pdev.bars d.mmap_area no_bar).len in
    let whole : ulong (mem + page_align len + 2 ^ 64 - mem) ≡ page_align len = omega arith in
    let right : wrong_size (page_align len) len ≡ false = unfold wrong_size in ground arith in
    ground arith
