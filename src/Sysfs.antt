-- ===== src/Sysfs.antt =====
-- The attribute of a kmem or umem entry: src/driver/sysfs.c, `_pcidriver_sysfs_initialize` and
-- `pcidriver_sysfs_remove`.
pub mod Stores
pub mod Shows
pub mod Steps
mod Tests
use fpga_pcie_drivers.Common.{ℕ, Bool, Option, none, some, List, [], ◌∷◌, if◌then◌else◌}
use fpga_pcie_drivers.Kernel.{
  Status, ok, err, enomem, enxio, AttrName, block, sysfs_file, Event, acquire, release,
}

-- What the kernel answers: the address of the copied name, and whether the file was created.
pub record SysfsAnswer : Type 0 where
  pub name : Option ℕ
  pub created : Bool

-- The status, the address of the name (0 for none), and the calls.
unfoldable pub sysfs_initialize : AttrName → SysfsAnswer → Status × ℕ × List Event
sysfs_initialize attr k = elim k.name [
  | none ↦ (err enomem, 0, [])
  | some p ↦
      if k.created
      then (ok, p, acquire (block p) ∷ acquire (sysfs_file attr) ∷ [])
      else (err enxio, p, acquire (block p) ∷ [])
]

unfoldable pub sysfs_remove : AttrName → ℕ → List Event
sysfs_remove attr name = release (sysfs_file attr) ∷ release (block name) ∷ []
