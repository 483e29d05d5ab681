-- ===== src/Ioctl/Dispatch.antt =====
-- `pcidriver_ioctl`.
use fpga_pcie_drivers.Common.{
  ℕ, true, false, Option, none, some, List, [], leb, if◌then◌else◌, get_or, set,
}
use fpga_pcie_drivers.Kernel.{Status, ok, err, einval, efault}
use fpga_pcie_drivers.Device.{
  KmemHandle, KmemSync, UmemHandle, UmemSglist, Privdata, int_maxsources,
}
use fpga_pcie_drivers.Kmem.{AllocAnswer}
use fpga_pcie_drivers.Umem.Map.{MapAnswer}
use fpga_pcie_drivers.Ioctl.Config.{
  User, PciCfgCmd, PciBoardInfo, silent, Answer, ioctl_mmap_mode, ioctl_mmap_area,
  ioctl_pci_config_read_write, ioctl_pci_info,
}
use fpga_pcie_drivers.Ioctl.Calls.{
  ArrayAnswer, ioctl_kmem_alloc, ioctl_kmem_free, ioctl_kmem_sync, ioctl_umem_sgmap,
  ioctl_umem_sgunmap, ioctl_umem_sgget, ioctl_umem_sync, ioctl_clear_ioq, wait_loop,
}

-- The command numbers, each with its argument: what the user's structure holds, or the number.
pub data Command : Type 0 where
  ioc_mmap_mode ioc_mmap_area : ℕ → Command
  ioc_pci_cfg_rd ioc_pci_cfg_wr : PciCfgCmd → Command
  ioc_pci_info : PciBoardInfo → Command
  ioc_kmem_alloc ioc_kmem_free : KmemHandle → Command
  ioc_kmem_sync : KmemSync → Command
  ioc_umem_sgmap ioc_umem_sgunmap ioc_umem_sync : UmemHandle → Command
  ioc_umem_sgget : UmemSglist → Command
  ioc_waiti ioc_clear_ioq : ℕ → Command
  unknown : Command

-- What the kernel answers to an ioctl, whichever it is; `rounds` are the interrupts that arrive in
-- each round of a wait.
pub record IoctlAnswer : Type 0 where
  pub user : User
  pub config : ℕ
  pub pin : Status × ℕ
  pub line : Status × ℕ
  pub alloc : AllocAnswer
  pub map : MapAnswer
  pub area : ArrayAnswer
  pub rounds : List ℕ

-- `ioctl_wait_interrupt`; none if the thread still waits.
unfoldable pub ioctl_wait_interrupt : List ℕ → Privdata → ℕ → Option Answer
ioctl_wait_interrupt rounds d arg =
    if leb int_maxsources arg
    then some (err efault, silent, d, [])
    else elim (wait_loop rounds (get_or d.irq_outstanding arg 0)) [
      | none ↦ none
      | some counter ↦
          some (ok, silent, record d { irq_outstanding = set d.irq_outstanding arg counter }, [])
    ]

-- `pcidriver_ioctl`; none if the call has not returned.
unfoldable pub ioctl : IoctlAnswer → Privdata → Command → Option Answer
ioctl k d (ioc_mmap_mode arg) = some (ioctl_mmap_mode d arg)
ioctl k d (ioc_mmap_area arg) = some (ioctl_mmap_area d arg)
ioctl k d (ioc_pci_cfg_rd c) = some (ioctl_pci_config_read_write k.user k.config true d c)
ioctl k d (ioc_pci_cfg_wr c) = some (ioctl_pci_config_read_write k.user k.config false d c)
ioctl k d (ioc_pci_info i) = some (ioctl_pci_info k.user k.pin k.line d i)
ioctl k d (ioc_kmem_alloc h) = some (ioctl_kmem_alloc k.user k.alloc d h)
ioctl k d (ioc_kmem_free h) = some (ioctl_kmem_free k.user d h)
ioctl k d (ioc_kmem_sync s) = some (ioctl_kmem_sync k.user d s)
ioctl k d (ioc_umem_sgmap h) = some (ioctl_umem_sgmap k.user k.map d h)
ioctl k d (ioc_umem_sgunmap h) = some (ioctl_umem_sgunmap k.user d h)
ioctl k d (ioc_umem_sgget l) = some (ioctl_umem_sgget k.user k.area d l)
ioctl k d (ioc_umem_sync h) = some (ioctl_umem_sync k.user d h)
ioctl k d (ioc_waiti arg) = ioctl_wait_interrupt k.rounds d arg
ioctl k d (ioc_clear_ioq arg) = some (ioctl_clear_ioq d arg)
ioctl k d unknown = some (err einval, silent, d, [])
