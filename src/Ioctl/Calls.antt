-- ===== src/Ioctl/Calls.antt =====
-- The ioctls on kernel buffers, user memory and interrupts.
use fpga_pcie_drivers.Common.{
  ℕ, ◌+◌, Bool, Option, none, some, List, [], ◌∷◌, leb, if◌then◌else◌, set,
}
use fpga_pcie_drivers.Kernel.{ok, err, einval, enomem, efault, failed, acquire, release, vm_area}
use fpga_pcie_drivers.Device.{
  KmemHandle, KmemSync, UmemHandle, UmemSglist, Privdata, uint, int_maxsources,
}
use fpga_pcie_drivers.Kmem.{AllocAnswer, kmem_alloc, kmem_free, kmem_sync}
use fpga_pcie_drivers.Umem.Map.{MapAnswer, umem_sgmap, umem_sgunmap, umem_find_entry_id, umem_sync}
use fpga_pcie_drivers.Umem.Sglist.{umem_sgget}
use fpga_pcie_drivers.Irq.Wait.{add_negative, atomic_inc}
use fpga_pcie_drivers.Ioctl.Config.{
  User, silent, kmem_handle, umem_handle, sglist, array, Answer, read_from_user, write_to_user,
}

-- `ioctl_kmem_alloc`
unfoldable pub ioctl_kmem_alloc : User → AllocAnswer → Privdata → KmemHandle → Answer
ioctl_kmem_alloc u k d h =
    let (status, handle, d', calls) = kmem_alloc k d h in
    read_from_user u d (
      if failed status
      then (status, silent, d', calls)
      else write_to_user u (kmem_handle handle) d' calls)

-- `ioctl_kmem_free`
unfoldable pub ioctl_kmem_free : User → Privdata → KmemHandle → Answer
ioctl_kmem_free u d h =
    let (status, d', calls) = kmem_free d h in read_from_user u d (status, silent, d', calls)

-- `ioctl_kmem_sync`
unfoldable pub ioctl_kmem_sync : User → Privdata → KmemSync → Answer
ioctl_kmem_sync u d s =
    let (status, calls) = kmem_sync d s in read_from_user u d (status, silent, d, calls)

-- `ioctl_umem_sgmap`
unfoldable pub ioctl_umem_sgmap : User → MapAnswer → Privdata → UmemHandle → Answer
ioctl_umem_sgmap u k d h =
    let (status, handle, d', calls) = umem_sgmap k d h in
    read_from_user u d (
      if failed status
      then (status, silent, d', calls)
      else write_to_user u (umem_handle handle) d' calls)

-- `ioctl_umem_sgunmap`
unfoldable pub ioctl_umem_sgunmap : User → Privdata → UmemHandle → Answer
ioctl_umem_sgunmap u d h = read_from_user u d (elim (umem_find_entry_id d h.handle_id) [
  | none ↦ (err einval, silent, d, [])
  | some e ↦ let (status, d', calls) = umem_sgunmap d e in (status, silent, d', calls)
])

-- What the kernel answers to `ioctl_umem_sgget`: the area for the array, and whether the array can
-- be copied in and out.
pub record ArrayAnswer : Type 0 where
  pub area : Option ℕ
  pub copied_in : Bool
  pub copied_out : Bool

-- the rest of `ioctl_umem_sgget`, once the area at `p` is allocated
unfoldable pub sgget_array : User → ArrayAnswer → Privdata → UmemSglist → ℕ → Answer
sgget_array u k d l p =
    let (status, got) = umem_sgget d l in
    let taken = acquire (vm_area p) ∷ [] in
    let freed = acquire (vm_area p) ∷ release (vm_area p) ∷ [] in
    if k.copied_in
    then (if failed status
        then (status, silent, d, taken)
        else if k.copied_out
        then (if u.writable
            then (ok, sglist got, d, freed)
            else (err efault, array got.sg, d, freed))
        else (err efault, silent, d, taken))
    else (err efault, silent, d, taken)

-- `ioctl_umem_sgget`; `l` has the user's array.
unfoldable pub ioctl_umem_sgget : User → ArrayAnswer → Privdata → UmemSglist → Answer
ioctl_umem_sgget u k d l =
    read_from_user u d
      (elim k.area [ none ↦ (err enomem, silent, d, []) | some p ↦ sgget_array u k d l p ])

-- `ioctl_umem_sync`
unfoldable pub ioctl_umem_sync : User → Privdata → UmemHandle → Answer
ioctl_umem_sync u d h =
    let (status, calls) = umem_sync d h in read_from_user u d (status, silent, d, calls)

-- The loop of `ioctl_wait_interrupt` on a channel's counter, by one thread alone: each round, the
-- interrupts that arrive before its test. None if the thread still waits after the last of them.
unfoldable pub wait_loop : List ℕ → ℕ → Option ℕ
wait_loop [] counter = none
wait_loop (arrived ∷ rounds) counter =
    let (less, negative) = add_negative (uint (counter + arrived)) in
    let again = wait_loop rounds (atomic_inc less) in if negative then again else some less

-- `ioctl_clear_ioq`
unfoldable pub ioctl_clear_ioq : Privdata → ℕ → Answer
ioctl_clear_ioq d arg =
    if leb int_maxsources arg
    then (err efault, silent, d, [])
    else (ok, silent, record d { irq_outstanding = set d.irq_outstanding arg 0 }, [])
