-- ===== src/Sysfs/Tests.antt =====
-- The attributes of a concrete device.
use fpga_pcie_drivers.Common.{ℕ, ◌≡◌, refl, false, [], ◌∷◌}
use fpga_pcie_drivers.Device.{KmemEntry, UmemEntry, PciDev, Privdata}
use fpga_pcie_drivers.Sysfs.Shows.{
  IsReport, show_kbuffers, show_umappings, show_rows, show_kbuffers-show_umappings,
}

abbrev board : PciDev
board = record { vendor = 0x10dc; device = 0x0153; bus = 1; devfn = 8; irq = 11; bars = [] }

abbrev buffer : KmemEntry
buffer = record { addr = 100; id = 0; dma_handle = 0x8000; cpua = 0x1000; size = 8192; name = 101 }

abbrev device : Privdata
device = record {
  devno = 0;
  pdev = board;
  mmap_mode = 0;
  mmap_area = 0;
  irq_enabled = false;
  irq_count = 0;
  irq_outstanding = [];
  bars_kmapped = [];
  kmem_list = buffer ∷ buffer ∷ [];
  kmem_count = 2;
  umem_list = [];
  umem_count = 0;
}

-- a row of so many bytes that two of them and the header fill the page
abbrev long_row : KmemEntry → ℕ
long_row e = 2038

abbrev row : UmemEntry → ℕ
row e = 12

show_kbuffers-show_umappings_example :
    IsReport 4096 (show_kbuffers 20 long_row device) × IsReport 20 (show_umappings 20 row device)
show_kbuffers-show_umappings_example = show_kbuffers-show_umappings 20 long_row row device

one_too_many : show_kbuffers 20 long_row device ≡ 4097
unfolding show_kbuffers show_rows
one_too_many = refl
