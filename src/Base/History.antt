-- ===== src/Base/History.antt =====
-- Devices come and go: sequences of `pcidriver_probe` and `pcidriver_remove`, with the count of
-- devices that they share, `pcidriver_deviceCount`.
use fpga_pcie_drivers.Common.{
  ℕ, ◌+◌, ◌<◌, ◌≤◌, ◌≡◌, Option, none, some, List, ◌^◌, true, [], ◌∷◌, ◌++◌, arith, length,
  remove_by,
}
use fpga_pcie_drivers.Device.{PciDev, Privdata}
use fpga_pcie_drivers.Base.Probe.{
  ProbeAnswer, maxdevices, probe, probe_private, probe_attributes, is_full,
}

-- The count, and the devices in use.
pub record Machine : Type 0 where
  pub count : ℕ
  pub devices : List Privdata

-- the devices after a probe
abbrev pub added : List Privdata → Option Privdata → List Privdata
added ds none = ds
added ds (some d) = ds ++ d ∷ []

abbrev pub plug : ProbeAnswer → PciDev → Machine → Machine
plug k pdev m =
    let (status, count, found, calls) = probe k m.count pdev in
    record { count = count; devices = added m.devices found }

-- `pcidriver_remove` does not touch the count.
abbrev pub unplug : ℕ → Machine → Machine
unplug devno m = record m { devices = remove_by (λ d. d.devno) devno m.devices }

pub data Step (m : Machine) : Machine → Type 0 where
  plugs : (k : ProbeAnswer) (pdev : PciDev) → Step m (plug k pdev m)
  unplugs : (devno : ℕ) → Step m (unplug devno m)

pub data Reach (m : Machine) : Machine → Type 0 where
  here : Reach m m
  next : {n o : Machine} → Reach m n → Step n o → Reach m o

-- how many of the steps are probes
unfoldable pub probes : {m n : Machine} → Reach m n → ℕ
probes here = 0
probes (next r (plugs k pdev)) = probes r + 1
probes (next r (unplugs devno)) = probes r

-- what a probe does at a count that is neither negative nor the last of the ints
probe-count :
    (k : ProbeAnswer) (c : ℕ) (pdev : PciDev)
    → c + 1 < 2 ^ 31
    → (c ≤ (probe k c pdev).1) × ((probe k c pdev).1 ≤ c + 1)
unfolding probe probe_private probe_attributes
probe-count k c pdev bound = ground arith

full-is_full : (c : ℕ) → maxdevices ≤ c → c < 2 ^ 31 → is_full c ≡ true
unfolding is_full
full-is_full c full bound = ground arith

probe-full :
    (k : ProbeAnswer) (c : ℕ) (pdev : PciDev) → is_full c ≡ true → (probe k c pdev).2 ≡ none
unfolding probe
probe-full k c pdev full = ground arith

remove_by-length : (k : ℕ) (ds : List Privdata) → length (remove_by (λ d. d.devno) k ds) ≤ length ds
unfolding remove_by
remove_by-length k [] = omega arith
remove_by-length k (d ∷ ds) = ground (arith, remove_by-length k ds)

-- The count has reached MAXDEVICES, and with the probes that follow it stays below 2 ^ 31. Then in
-- every order of these probes and of removals the count never falls, however many devices are
-- removed; it rises by one a probe at most; and no device comes into use any more.
pub no_more_devices :
    (m n : Machine) (r : Reach m n)
    → maxdevices ≤ m.count
    → m.count + probes r < 2 ^ 31
    → (m.count ≤ n.count) × (n.count ≤ m.count + probes r) × (length n.devices ≤ length m.devices)
unfolding probes
no_more_devices m n here full bound = (omega arith, omega arith, omega arith)
no_more_devices m n (next {n = o} r (plugs k pdev)) full bound =
    let w = no_more_devices m o r full (omega arith) in
    let c = probe-count k o.count pdev (omega (arith, w.0, w.1)) in
    let none_found =
      probe-full k o.count pdev (full-is_full o.count (omega (arith, w.0)) (omega (arith, w.1))) in
    rw none_found (omega (arith, c.0, w.0), omega (arith, c.1, w.1), w.2)
no_more_devices m n (next {n = o} r (unplugs devno)) full bound =
    let w = no_more_devices m o r full bound in
    let shorter = remove_by-length devno o.devices in (w.0, w.1, omega (arith, w.2, shorter))
