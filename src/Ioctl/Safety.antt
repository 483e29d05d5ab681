-- ===== src/Ioctl/Safety.antt =====
-- The invariant of a device under the commands of `pcidriver_ioctl`.
use fpga_pcie_drivers.Common.{
  ℕ, ◌≤◌, ◌≡◌, ◌⊎◌, ◌∙◌, Bool, true, false, Option, none, some, List, inl, inr, arith, Bool-cases,
  Option-cases, length-set, set, leb, get_or,
}
use mathlib.Core.Path.{subst}
use fpga_pcie_drivers.Kernel.{Status}
use fpga_pcie_drivers.Device.{KmemSync, UmemHandle, UmemSglist, Privdata, int_maxsources}
use fpga_pcie_drivers.Ioctl.Config.{
  User, Answer, ioctl_mmap_mode, ioctl_mmap_area, ioctl_pci_config_read_write, ioctl_pci_info,
  PciCfgCmd, PciBoardInfo,
}
use fpga_pcie_drivers.Ioctl.Calls.{
  ArrayAnswer, ioctl_kmem_sync, ioctl_umem_sgget, ioctl_umem_sync, ioctl_clear_ioq, sgget_array,
  wait_loop,
}
use fpga_pcie_drivers.Ioctl.Dispatch.{
  Command, IoctlAnswer, ioctl_wait_interrupt, ioctl, ioc_mmap_mode, ioc_mmap_area, ioc_pci_cfg_rd,
  ioc_pci_cfg_wr, ioc_pci_info, ioc_kmem_alloc, ioc_kmem_free, ioc_kmem_sync, ioc_umem_sgmap,
  ioc_umem_sgunmap, ioc_umem_sync, ioc_umem_sgget, ioc_waiti, ioc_clear_ioq, unknown,
}
use fpga_pcie_drivers.Ioctl.Invariant.{
  IsDevice, IsFair, kmem_alloc-IsDevice, kmem_free-IsDevice, umem_sgmap-IsDevice,
  umem_sgunmap-IsDevice,
}

module _ (u : User) (d : Privdata) where
  config-same :
      (v : ℕ) (reads : Bool) (c : PciCfgCmd) → (ioctl_pci_config_read_write u v reads d c).2 ≡ d
  unfolding ioctl_pci_config_read_write
  config-same v reads c = ground arith

  info-same : (pin line : Status × ℕ) (i : PciBoardInfo) → (ioctl_pci_info u pin line d i).2 ≡ d
  unfolding ioctl_pci_info
  info-same pin line i = ground arith

  sgget-same : (k : ArrayAnswer) (l : UmemSglist) → (ioctl_umem_sgget u k d l).2 ≡ d
  unfolding ioctl_umem_sgget sgget_array
  sgget-same k l = ground arith

  kmem_sync-same : (s : KmemSync) → (ioctl_kmem_sync u d s).2 ≡ d
  unfolding ioctl_kmem_sync
  kmem_sync-same s = ground arith

  umem_sync-same : (h : UmemHandle) → (ioctl_umem_sync u d h).2 ≡ d
  unfolding ioctl_umem_sync
  umem_sync-same h = ground arith

-- A channel's counter is set.
pub set-IsDevice :
    (d : Privdata) (channel counter : ℕ)
    → IsDevice d
    → IsDevice (record d { irq_outstanding = set d.irq_outstanding channel counter })
set-IsDevice d channel counter v = record {
  buffers = record {
    blocks = v.buffers.blocks;
    handles = v.buffers.handles;
    ids = v.buffers.ids;
    below = v.buffers.below;
  };
  mappings = record { blocks = v.mappings.blocks; ids = v.mappings.ids; below = v.mappings.below };
  mode = v.mode;
  area = v.area;
  channels = length-set d.irq_outstanding channel counter ∙ v.channels;
}

pub settings-IsDevice :
    (d : Privdata) (mode area : ℕ)
    → mode ≤ 1
    → area ≤ 5
    → IsDevice d
    → IsDevice (record d { mmap_mode = mode; mmap_area = area })
settings-IsDevice d mode area m a v = record {
  buffers = record {
    blocks = v.buffers.blocks;
    handles = v.buffers.handles;
    ids = v.buffers.ids;
    below = v.buffers.below;
  };
  mappings = record { blocks = v.mappings.blocks; ids = v.mappings.ids; below = v.mappings.below };
  mode = m;
  area = a;
  channels = v.channels;
}

mode-IsDevice : (d : Privdata) (arg : ℕ) → IsDevice d → IsDevice (ioctl_mmap_mode d arg).2
unfolding ioctl_mmap_mode
mode-IsDevice d arg v =
    let end : ((ioctl_mmap_mode d arg).2 ≡ d)
        ⊎ ((arg ≤ 1) × ((ioctl_mmap_mode d arg).2 ≡ record d { mmap_mode = arg })) =
      ground arith in
    elim end [
      | inl e ↦ rw e v
      | inr (small, e) ↦ rw e (settings-IsDevice d arg d.mmap_area small v.area v)
    ]

area-IsDevice : (d : Privdata) (arg : ℕ) → IsDevice d → IsDevice (ioctl_mmap_area d arg).2
unfolding ioctl_mmap_area
area-IsDevice d arg v =
    let end : ((ioctl_mmap_area d arg).2 ≡ d)
        ⊎ ((arg ≤ 5) × ((ioctl_mmap_area d arg).2 ≡ record d { mmap_area = arg })) =
      ground arith in
    elim end [
      | inl e ↦ rw e v
      | inr (small, e) ↦ rw e (settings-IsDevice d d.mmap_mode arg v.mode small v)
    ]

clear-IsDevice : (d : Privdata) (arg : ℕ) → IsDevice d → IsDevice (ioctl_clear_ioq d arg).2
unfolding ioctl_clear_ioq
clear-IsDevice d arg v = elim (Bool-cases (leb int_maxsources arg)) [
  | inl e ↦ simp e v
  | inr e ↦ simp e (set-IsDevice d arg 0 v)
]

-- What an ioctl that has returned leaves.
abbrev Leaves : Option Answer → Type 0
Leaves none = Unit
Leaves (some a) = IsDevice a.2

wait-Leaves :
    (rounds : List ℕ) (d : Privdata) (arg : ℕ)
    → IsDevice d
    → Leaves (ioctl_wait_interrupt rounds d arg)
unfolding ioctl_wait_interrupt
wait-Leaves rounds d arg v = elim (Bool-cases (leb int_maxsources arg)) [
  | inl e ↦ simp e v
  | inr e ↦ elim (Option-cases (wait_loop rounds (get_or d.irq_outstanding arg 0))) [
    | inl f ↦ simp (e, f) tt
    | inr (counter, f) ↦ simp (e, f) (set-IsDevice d arg counter v)
  ]
]

ioctl-Leaves :
    (k : IoctlAnswer) (d : Privdata) (c : Command)
    → IsFair k.alloc k.map d
    → IsDevice d
    → Leaves (ioctl k d c)
unfolding ioctl
ioctl-Leaves k d (ioc_mmap_mode arg) f v = mode-IsDevice d arg v
ioctl-Leaves k d (ioc_mmap_area arg) f v = area-IsDevice d arg v
ioctl-Leaves k d (ioc_pci_cfg_rd c) f v = rw (config-same k.user d k.config true c) v
ioctl-Leaves k d (ioc_pci_cfg_wr c) f v = rw (config-same k.user d k.config false c) v
ioctl-Leaves k d (ioc_pci_info i) f v = rw (info-same k.user d k.pin k.line i) v
ioctl-Leaves k d (ioc_kmem_alloc h) f v = kmem_alloc-IsDevice k.user k.alloc k.map d h f v
ioctl-Leaves k d (ioc_kmem_free h) f v = kmem_free-IsDevice k.user d h v
ioctl-Leaves k d (ioc_kmem_sync s) f v = rw (kmem_sync-same k.user d s) v
ioctl-Leaves k d (ioc_umem_sgmap h) f v = umem_sgmap-IsDevice k.user k.alloc k.map d h f v
ioctl-Leaves k d (ioc_umem_sgunmap h) f v = umem_sgunmap-IsDevice k.user d h v
ioctl-Leaves k d (ioc_umem_sgget l) f v = rw (sgget-same k.user d k.area l) v
ioctl-Leaves k d (ioc_umem_sync h) f v = rw (umem_sync-same k.user d h) v
ioctl-Leaves k d (ioc_waiti arg) f v = wait-Leaves k.rounds d arg v
ioctl-Leaves k d (ioc_clear_ioq arg) f v = clear-IsDevice d arg v
ioctl-Leaves k d unknown f v = v

-- Every ioctl that returns keeps the device's invariant, whatever the command, its argument and the
-- faults of user memory, if the memory that the kernel hands out is not in use and the counters of
-- ids have not run round: both lists stay as their components keep them, mmap stays set to a mode
-- and a BAR that exist, and no counter of a channel is lost.
pub ioctl-IsDevice :
    (k : IoctlAnswer) (d : Privdata) (c : Command) (a : Answer)
    → IsFair k.alloc k.map d
    → IsDevice d
    → ioctl k d c ≡ some a
    → IsDevice a.2
ioctl-IsDevice k d c a f v returned = subst Leaves returned (ioctl-Leaves k d c f v)
