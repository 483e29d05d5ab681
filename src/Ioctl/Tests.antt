-- ===== src/Ioctl/Tests.antt =====
-- The ioctl interface at a concrete device.
use fpga_pcie_drivers.Common.{◌≡◌, refl, true, false, some, [], ◌∷◌, find_by}
use fpga_pcie_drivers.Kernel.{acquired, released, vm_area}
use fpga_pcie_drivers.Device.{UmemSglist, PciDev, Privdata}
use fpga_pcie_drivers.Umem.Map.{umem_find_entry_id}
use fpga_pcie_drivers.Umem.Sglist.{umem_sgget}
use fpga_pcie_drivers.Ioctl.Config.{User}
use fpga_pcie_drivers.Ioctl.Calls.{ArrayAnswer, ioctl_umem_sgget}
use fpga_pcie_drivers.Ioctl.Faults.{ioctl_umem_sgget-area}

abbrev board : PciDev
board = record { vendor = 0x10dc; device = 0x0153; bus = 1; devfn = 8; irq = 11; bars = [] }

abbrev device : Privdata
device = record {
  devno = 0;
  pdev = board;
  mmap_mode = 0;
  mmap_area = 0;
  irq_enabled = true;
  irq_count = 0;
  irq_outstanding = 0 ∷ 0 ∷ 0 ∷ 0 ∷ 0 ∷ 0 ∷ 0 ∷ 0 ∷ 0 ∷ 0 ∷ 0 ∷ 0 ∷ 0 ∷ 0 ∷ 0 ∷ 0 ∷ [];
  bars_kmapped = [];
  kmem_list = [];
  kmem_count = 0;
  umem_list = [];
  umem_count = 0;
}

abbrev read_only : User
read_only = record { readable = true; writable = false }

abbrev area_answer : ArrayAnswer
area_answer = record { area = some 600; copied_in = true; copied_out = true }

abbrev array : UmemSglist
array = record { handle_id = 7; type = 1; nents = 0; sg = [] }

-- There is no mapping number 7: the area is kept.
ioctl_umem_sgget-area_example :
    (acquired (ioctl_umem_sgget read_only area_answer device array).3 ≡ vm_area 600 ∷ [])
    × (released (ioctl_umem_sgget read_only area_answer device array).3 ≡ [])
unfolding umem_sgget umem_find_entry_id find_by
ioctl_umem_sgget-area_example =
    ioctl_umem_sgget-area read_only area_answer device array 600 refl refl
