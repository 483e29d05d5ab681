-- ===== src/Base/Tests.antt =====
-- The life of a device and of the module, at concrete boards.
use fpga_pcie_drivers.Common.{
  ◌+◌, ◌≤◌, ◌≡◌, ◌⊎◌, refl, Bool, true, false, some, [], ◌∷◌, arith, count, length, replicate,
}
use fpga_pcie_drivers.Kernel.{ok, err, einval, eagain, act, Resource, acquired, released}
use fpga_pcie_drivers.Device.{Bar, PciDev, Privdata}
use fpga_pcie_drivers.Base.Bars.{BarAnswer, IrqAnswer, map_bars, probe_irq}
use fpga_pcie_drivers.Base.Probe.{
  ProbeAnswer, is_full, probe, probe_private, probe_attributes, remove, new_privdata,
}
use fpga_pcie_drivers.Base.Undo.{remove-probe, probe_keeps, kept}
use fpga_pcie_drivers.Base.History.{
  Machine, plug, unplug, here, next, plugs, unplugs, no_more_devices, probes,
}
use fpga_pcie_drivers.Base.Mmap.{mmap, IsAllowed, map_call, mmap-bar}

abbrev registers : Bar
registers = record { start = 0xf0000000; len = 8192; io = false; prefetch = false }

abbrev board : PciDev
board = record {
  vendor = 0x10dc;
  device = 0x0153;
  bus = 1;
  devfn = 8;
  irq = 11;
  bars = registers ∷ [];
}

abbrev mapped_bar : BarAnswer
mapped_bar = record { request = ok; remap = some 0x1000 }

abbrev irq_answer : IrqAnswer
irq_answer = record { bar = λ i. mapped_bar; pin = some 1; line = true; handler = true }

abbrev granted : ProbeAnswer
granted = record { enable = ok; block = some 300; irq = irq_answer; files = 10; cdev = ok }

-- The third attribute cannot be created.
abbrev no_files : ProbeAnswer
no_files = record { enable = ok; block = some 300; irq = irq_answer; files = 2; cdev = ok }

-- The device that the probe makes.
abbrev device : Privdata
device = record (new_privdata 0 board) {
  irq_enabled = true;
  irq_outstanding = replicate 16 0;
  bars_kmapped = some 0x1000 ∷ [];
}

abbrev any : Resource → Bool
any r = true

remove-probe_example :
    ((probe granted 0 board).0 ≡ ok)
    × (released (probe granted 0 board).3 ≡ [])
    × (count any (released (remove 300 device)) ≡ count any (acquired (probe granted 0 board).3))
remove-probe_example =
    remove-probe any granted 0 board 300 device refl
      (unfold probe is_full probe_private probe_attributes probe_irq map_bars in refl)

probe_keeps_example :
    ((probe no_files 0 board).0 ≡ ok)
    × (count any (acquired (probe no_files 0 board).3)
        ≡ count any (released (probe no_files 0 board).3)
          + count any (acquired (kept no_files 0 board)))
probe_keeps_example =
    probe_keeps any no_files 0 board 300 refl (omega arith) refl (unfold map_bars in refl)
      (unfold probe is_full probe_private probe_attributes probe_irq map_bars in refl)

abbrev full : Machine
full = record { count = 4; devices = device ∷ [] }

no_more_devices_example :
    (4 ≤ (plug granted board (unplug 0 full)).count)
    × ((plug granted board (unplug 0 full)).count ≤ 4 + 1)
    × (length (plug granted board (unplug 0 full)).devices ≤ 1)
unfolding probes
no_more_devices_example =
    no_more_devices full (plug granted board (unplug 0 full))
      (next (next here (unplugs 0)) (plugs granted board)) (omega arith) (omega arith)

mmap-bar_example :
    (IsAllowed device 0x7000 0x9000
      × (mmap false device 0x7000 0x9000 ≡ (err eagain, act (map_call 0x7000 registers) ∷ [])))
    ⊎ ((¬ IsAllowed device 0x7000 0x9000) × (mmap false device 0x7000 0x9000 ≡ (err einval, [])))
mmap-bar_example = mmap-bar device 0x7000 0x9000 false refl
