-- ===== src/Base/Probe.antt =====
-- `pcidriver_probe` and `pcidriver_remove` of base.c.
use fpga_pcie_drivers.Common.{
  ℕ, zero, suc, ◌+◌, false, ◌&&◌, not, Bool, Option, none, some, List, [], ◌∷◌, ◌++◌, ltb, ◌==◌,
  if◌then◌else◌,
}
use fpga_pcie_drivers.Kernel.{
  Status, ok, err, enomsg, enomem, failed, Event, acquire, release, act, set_master, pci_device,
  block, class_device, char_device, sysfs_file, fixed,
}
use fpga_pcie_drivers.Device.{PciDev, Privdata, uint}
use fpga_pcie_drivers.Umem.Pages.{lt_int}
use fpga_pcie_drivers.Kmem.{kmem_free_all}
use fpga_pcie_drivers.Base.Bars.{IrqAnswer, probe_irq, unmap_bars, remove_irq}

-- MAXDEVICES
abbrev pub maxdevices : ℕ
maxdevices = 4

-- MPRACE1_VENDOR_ID, MPRACE1_DEVICE_ID
abbrev pub mprace1_vendor_id : ℕ
mprace1_vendor_id = 0x10b5

abbrev pub mprace1_device_id : ℕ
mprace1_device_id = 0x9656

-- What the kernel answers: to pci_enable_device; to kcalloc, the address; to the setup of
-- interrupts; how many attributes it creates before it fails; and to cdev_add.
pub record ProbeAnswer : Type 0 where
  pub enable : Status
  pub block : Option ℕ
  pub irq : IrqAnswer
  pub files : ℕ
  pub cdev : Status

-- the number of attributes of a device: irq_count to umem_unmap
abbrev pub attributes : ℕ
attributes = 10

-- the calls that create the first `n` attributes
unfoldable pub create_files : ℕ → List Event
create_files zero = []
create_files (suc n) = create_files n ++ acquire (sysfs_file (fixed n)) ∷ []

unfoldable pub remove_files : ℕ → List Event
remove_files zero = []
remove_files (suc n) = remove_files n ++ release (sysfs_file (fixed n)) ∷ []

-- `devid >= MAXDEVICES`, which compares two ints
unfoldable pub is_full : ℕ → Bool
is_full devid = not (lt_int devid maxdevices)

-- the zeroed private data of device number `devid`
abbrev pub new_privdata : ℕ → PciDev → Privdata
new_privdata devid pdev = record {
  devno = devid;
  pdev = pdev;
  mmap_mode = 0;
  mmap_area = 0;
  irq_enabled = false;
  irq_count = 0;
  irq_outstanding = [];
  bars_kmapped = [];
  kmem_list = [];
  kmem_count = 0;
  umem_list = [];
  umem_count = 0;
}

-- The result of a probe: the `int` returned, the count of devices, the device if it is in use, and
-- the calls.
abbrev pub Probed : Type 0
Probed = Status × ℕ × Option Privdata × List Event

-- what the error path from `probe_irq_probe_fail` on releases
abbrev pub teardown : ℕ → Privdata → List Event
teardown p d = unmap_bars 0 d.bars_kmapped ++ release (block p) ∷ release pci_device ∷ []

-- from the attributes on, the private data at `p`; `err` is 0 when the attributes are created.
unfoldable pub probe_attributes : ProbeAnswer → ℕ → ℕ → Privdata → List Event → Probed
probe_attributes k count p d done =
    if ltb k.files attributes
    then (ok, count, none, done ++ create_files k.files ++ teardown p d)
    else elim k.cdev [
      | err e ↦ (err e, count, none, done ++ create_files attributes ++ teardown p d)
      | ok ↦ (
        ok,
        uint (count + 1),
        some d,
        done ++ create_files attributes ++ acquire (char_device d.devno) ∷ [],
      )
    ]

-- from the private data on; `count` is the count before this device
unfoldable pub probe_private : ProbeAnswer → ℕ → PciDev → ℕ → List Event → Probed
probe_private k count pdev p done =
    let (status, d, calls) = probe_irq k.irq (new_privdata count pdev) in
    let so_far = done ++ acquire (block p) ∷ acquire (class_device count) ∷ calls in
    if failed status
    then (status, count, none, so_far ++ teardown p d)
    else probe_attributes k count p d so_far

-- `pcidriver_probe`; `count` is `pcidriver_deviceCount`, an int of 32 bits, which wraps around
unfoldable pub probe : ProbeAnswer → ℕ → PciDev → Probed
probe k count pdev =
    let is_mprace1 = pdev.vendor == mprace1_vendor_id && pdev.device == mprace1_device_id in
    let master = (if is_mprace1 then act set_master ∷ [] else []) in
    elim k.enable [
      | err e ↦ (err e, count, none, master)
      | ok ↦
          let enabled = master ++ acquire pci_device ∷ [] in
          if is_full count
          then (err enomsg, uint (count + 1), none, enabled ++ release pci_device ∷ [])
          else elim k.block [
            | none ↦ (err enomem, count, none, enabled ++ release pci_device ∷ [])
            | some p ↦ probe_private k count pdev p enabled
          ]
    ]

-- `pcidriver_remove` of the device whose private data is at `p`
unfoldable pub remove : ℕ → Privdata → List Event
remove p d =
    remove_files attributes
    ++ (kmem_free_all d).2
    ++ remove_irq d
    ++ release (char_device d.devno)
      ∷ release (class_device d.devno)
      ∷ release (block p)
      ∷ release pci_device
      ∷ []
