-- ===== src/System/Tests.antt =====
-- A concrete device from its probe on.
use fpga_pcie_drivers.Common.{refl, true, false, some, none, [], ◌∷◌, arith}
use fpga_pcie_drivers.Kernel.{ok}
use fpga_pcie_drivers.Device.{Bar, PciDev, Privdata}
use fpga_pcie_drivers.Kmem.{AllocAnswer, kmem_alloc}
use fpga_pcie_drivers.Umem.Map.{MapAnswer}
use fpga_pcie_drivers.Irq.Handler.{Registers, check_channels, handled, irq_acknowledge, irq_handler}
use fpga_pcie_drivers.Base.Bars.{map_bars, probe_irq}
use fpga_pcie_drivers.Base.Probe.{
  ProbeAnswer, is_full, probe, probe_private, probe_attributes, new_privdata,
}
use fpga_pcie_drivers.Sysfs.Stores.{store_kmem_alloc, store_mmap_mode}
use fpga_pcie_drivers.Ioctl.Invariant.{IsDevice, IsFair}
use fpga_pcie_drivers.System.Life.{Reach, here, next, allocates, sets_mode, interrupts, probe-Reach}

abbrev bar : Bar
bar = record { start = 0xf0000000; len = 8192; io = false; prefetch = false }

abbrev board : PciDev
board = record { vendor = 0x10dc; device = 0x0153; bus = 1; devfn = 8; irq = 11; bars = bar ∷ [] }

abbrev granted : ProbeAnswer
granted = record {
  enable = ok;
  block = some 300;
  irq = record {
    bar = λ i. record { request = ok; remap = some 0x1000 };
    pin = some 1;
    line = true;
    handler = true;
  };
  files = 10;
  cdev = ok;
}

-- The device that the probe makes.
abbrev device : Privdata
device = record (new_privdata 0 board) {
  irq_enabled = true;
  bars_kmapped = some 0x1000 ∷ [];
  irq_outstanding = 0 ∷ 0 ∷ 0 ∷ 0 ∷ 0 ∷ 0 ∷ 0 ∷ 0 ∷ 0 ∷ 0 ∷ 0 ∷ 0 ∷ 0 ∷ 0 ∷ 0 ∷ 0 ∷ [];
}

abbrev alloc_answer : AllocAnswer
alloc_answer = record {
  entry = some 200;
  attr = record { name = some 201; created = true };
  buffer = some (0x2000, 0x9000);
}

abbrev map_answer : MapAnswer
map_answer = record {
  pages_area = none;
  sg_area = none;
  res = 0;
  pinned = [];
  mapped = [];
  entry = none;
  attr = record { name = none; created = false };
}

abbrev registers : Registers
registers = record { stat = λ n. 1; enable = 7 }

fair : IsFair alloc_answer map_answer device
fair = record {
  kmem_room = omega arith;
  umem_room = omega arith;
  alloc = record { entry = λ p e. tt; buffer = λ c e. tt };
  map = λ p e. tt;
}

abbrev allocated : Privdata
allocated = (store_kmem_alloc alloc_answer device 0 0 (some 4096)).0

abbrev interrupted : Privdata
interrupted = (handled (check_channels registers allocated)).1

-- A buffer is made by writing to the attribute, an interrupt comes, and the mode is set.
life : Reach device (store_mmap_mode interrupted (some 1)).0
life =
    next
      (next (next here (allocates alloc_answer map_answer 0 0 (some 4096) fair)) (
        interrupts registers (handled (check_channels registers allocated))
          (unfold irq_handler irq_acknowledge store_kmem_alloc kmem_alloc in refl)))
      (sets_mode (some 1))

probe-Reach_example : IsDevice (store_mmap_mode interrupted (some 1)).0
unfolding probe is_full probe_private probe_attributes probe_irq map_bars
probe-Reach_example = probe-Reach granted 0 board device _ refl life
