-- ===== src/Base/Module.antt =====
-- `pcidriver_init` and `pcidriver_exit` of base.c: the module is loaded and unloaded.
use fpga_pcie_drivers.Common.{
  ◌+◌, ◌≡◌, Bool, true, false, List, [], ◌∷◌, ◌++◌, arith, if◌then◌else◌, count,
}
use fpga_pcie_drivers.Kernel.{
  Status, ok, err, failed, Event, Resource, acquire, release, acquired, released, chrdev_region,
  driver_class, pci_driver,
}

-- What the kernel answers: to alloc_chrdev_region; whether class_create gives a class; and to
-- pci_register_driver.
pub record InitAnswer : Type 0 where
  pub chrdev : Status
  pub class : Bool
  pub register : Status

-- `pcidriver_init`; where class_create fails, `err` is still the 0 of alloc_chrdev_region.
unfoldable pub init : InitAnswer → Status × List Event
init k = elim k.chrdev [
  | err e ↦ (err e, [])
  | ok ↦
      if k.class
      then elim k.register [
        | err e ↦ (
          err e,
          acquire chrdev_region
              ∷ acquire driver_class
              ∷ release driver_class
              ∷ release chrdev_region
              ∷ [],
        )
        | ok ↦ (ok, acquire chrdev_region ∷ acquire driver_class ∷ acquire pci_driver ∷ [])
      ]
      else (ok, acquire chrdev_region ∷ release chrdev_region ∷ [])
]

-- `pcidriver_exit`
unfoldable pub exit : List Event
exit = release pci_driver ∷ release chrdev_region ∷ release driver_class ∷ []

module _ (t : Resource → Bool) (k : InitAnswer) where
  -- If the class is made, a module that fails to load has given back all that it took, and one that
  -- loads and is unloaded has, too.
  exit-init :
      k.class ≡ true
      → count t (acquired (init k).1)
        ≡ count t (released (init k).1) + (if failed (init k).0 then 0 else count t (released exit))
  unfolding init exit count
  exit-init made = ground arith

-- If the class cannot be made, loading the module returns 0 with everything given back. So the
-- module can be unloaded, and then it gives back a driver that it has never registered.
init_reports_ok :
    (k : InitAnswer)
    → k.chrdev ≡ ok
    → k.class ≡ false
    → ((init k).0 ≡ ok)
      × (acquired (init k).1 ≡ chrdev_region ∷ [])
      × (released ((init k).1 ++ exit)
          ≡ chrdev_region ∷ pci_driver ∷ chrdev_region ∷ driver_class ∷ [])
unfolding init exit
init_reports_ok k region none_made = ground arith
