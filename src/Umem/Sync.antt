-- ===== src/Umem/Sync.antt =====
-- What `pcidriver_umem_sync` answers.
use fpga_pcie_drivers.Common.{◌≡◌, arith, is_empty, if◌then◌else◌, is_some, ◌&&◌, ltb}
use fpga_pcie_drivers.Kernel.{ok, err, einval, failed}
use fpga_pcie_drivers.Device.{UmemHandle, Privdata}
use fpga_pcie_drivers.Umem.Map.{umem_find_entry_id, umem_sync}

-- `pcidriver_umem_sync` returns 0 exactly for the id of a mapping and one of the three directions,
-- and -EINVAL otherwise. The kernel is called exactly if it returns 0.
pub umem_sync_lem :
    (d : Privdata) (h : UmemHandle)
    → ((umem_sync d h).0
        ≡ (if is_some (umem_find_entry_id d h.handle_id) && ltb h.dir 3 then ok else err einval))
      × (is_empty (umem_sync d h).1 ≡ failed (umem_sync d h).0)
unfolding umem_sync
umem_sync_lem d h = ground arith
