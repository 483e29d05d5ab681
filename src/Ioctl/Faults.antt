-- ===== src/Ioctl/Faults.antt =====
-- Faults of user memory in the ioctls, and how long a thread waits for an interrupt.
use fpga_pcie_drivers.Common.{
  ℕ, ◌+◌, ◌-◌, ◌^◌, ◌<◌, ◌≡◌, refl, Bool, true, false, some, List, [], ◌∷◌, arith, Bool-cases, inl,
  inr, is_some, ltb, leb, not, ◌&&◌, if◌then◌else◌,
}
use fpga_pcie_drivers.Kernel.{err, efault, failed, acquired, released, vm_area}
use fpga_pcie_drivers.Device.{UmemSglist, Privdata, uint}
use fpga_pcie_drivers.Umem.Sglist.{umem_sgget}
use fpga_pcie_drivers.Irq.Wait.{add_negative, atomic_inc}
use fpga_pcie_drivers.Ioctl.Config.{User, silent, ioctl_pci_config_read_write, ioctl_pci_info}
use fpga_pcie_drivers.Ioctl.Calls.{
  ArrayAnswer, ioctl_kmem_alloc, ioctl_kmem_free, ioctl_kmem_sync, ioctl_umem_sgmap,
  ioctl_umem_sgunmap, ioctl_umem_sgget, ioctl_umem_sync, sgget_array, wait_loop,
}
use fpga_pcie_drivers.Ioctl.Dispatch.{
  Command, IoctlAnswer, ioctl, ioc_mmap_mode, ioc_mmap_area, ioc_pci_cfg_rd, ioc_pci_cfg_wr,
  ioc_pci_info, ioc_kmem_alloc, ioc_kmem_free, ioc_kmem_sync, ioc_umem_sgmap, ioc_umem_sgunmap,
  ioc_umem_sync, ioc_umem_sgget, ioc_waiti, ioc_clear_ioq, unknown,
}

-- the commands whose argument is a pointer
abbrev pub takes_pointer : Command → Bool
takes_pointer (ioc_mmap_mode arg) = false
takes_pointer (ioc_mmap_area arg) = false
takes_pointer (ioc_waiti arg) = false
takes_pointer (ioc_clear_ioq arg) = false
takes_pointer unknown = false
takes_pointer c = true

-- If the user's structure cannot be read, every command that takes a pointer to one returns -EFAULT
-- with nothing done: the device is as before, no call was made and nothing is written.
pub ioctl_unreadable :
    (k : IoctlAnswer) (d : Privdata) (c : Command)
    → k.user.readable ≡ false
    → takes_pointer c ≡ true
    → ioctl k d c ≡ some (err efault, silent, d, [])
unfolding ioctl ioctl_pci_config_read_write ioctl_pci_info ioctl_kmem_alloc ioctl_kmem_free
    ioctl_kmem_sync ioctl_umem_sgmap ioctl_umem_sgunmap ioctl_umem_sgget ioctl_umem_sync
ioctl_unreadable k d (ioc_mmap_mode arg) bad pointer = absurd (ground arith)
ioctl_unreadable k d (ioc_mmap_area arg) bad pointer = absurd (ground arith)
ioctl_unreadable k d (ioc_pci_cfg_rd c) bad pointer = simp bad refl
ioctl_unreadable k d (ioc_pci_cfg_wr c) bad pointer = simp bad refl
ioctl_unreadable k d (ioc_pci_info i) bad pointer = simp bad refl
ioctl_unreadable k d (ioc_kmem_alloc h) bad pointer = simp bad refl
ioctl_unreadable k d (ioc_kmem_free h) bad pointer = simp bad refl
ioctl_unreadable k d (ioc_kmem_sync s) bad pointer = simp bad refl
ioctl_unreadable k d (ioc_umem_sgmap h) bad pointer = simp bad refl
ioctl_unreadable k d (ioc_umem_sgunmap h) bad pointer = simp bad refl
ioctl_unreadable k d (ioc_umem_sgget l) bad pointer = simp bad refl
ioctl_unreadable k d (ioc_umem_sync h) bad pointer = simp bad refl
ioctl_unreadable k d (ioc_waiti arg) bad pointer = absurd (ground arith)
ioctl_unreadable k d (ioc_clear_ioq arg) bad pointer = absurd (ground arith)
ioctl_unreadable k d unknown bad pointer = absurd (ground arith)

-- `ioctl_umem_sgget` gives the area for the array back exactly if it comes to the end of its copying
-- out: if the array cannot be copied, or the mapping is not found, or the array is too short, the area
-- is kept.
pub ioctl_umem_sgget-area :
    (u : User) (k : ArrayAnswer) (d : Privdata) (l : UmemSglist) (p : ℕ)
    → u.readable ≡ true
    → k.area ≡ some p
    → (acquired (ioctl_umem_sgget u k d l).3 ≡ vm_area p ∷ [])
      × (released (ioctl_umem_sgget u k d l).3 ≡ (
          if k.copied_in && not (failed (umem_sgget d l).0) && k.copied_out
          then vm_area p ∷ []
          else []))
unfolding ioctl_umem_sgget sgget_array
ioctl_umem_sgget-area u k d l p readable area = simp (readable, area) (ground arith)

-- all the interrupts that arrive
abbrev pub total : List ℕ → ℕ
total [] = 0
total (arrived ∷ rounds) = arrived + total rounds

-- one round
wait_loop-cons :
    (arrived : ℕ) (rounds : List ℕ) (counter : ℕ)
    → counter + arrived < 2 ^ 31
    → wait_loop (arrived ∷ rounds) counter
      ≡ (if ltb 0 (counter + arrived) then some (counter + arrived - 1) else wait_loop rounds 0)
unfolding wait_loop add_negative atomic_inc
wait_loop-cons arrived rounds counter small = elim (Bool-cases (ltb 0 (counter + arrived))) [
  | inl more ↦
      let low : leb (2 ^ 31) (uint (uint (counter + arrived) + (2 ^ 32 - 1))) ≡ false =
        ground arith in
      simp (more, low) (ground arith)
  | inr empty ↦ let nothing : counter + arrived ≡ 0 = ground arith in rw nothing refl
]

wait_loop-zero :
    (rounds : List ℕ) → total rounds < 2 ^ 31 → is_some (wait_loop rounds 0) ≡ ltb 0 (total rounds)
wait_loop-zero [] small = unfold wait_loop in refl
wait_loop-zero (arrived ∷ rounds) small =
    rw (wait_loop-cons arrived rounds 0 (omega arith))
      (ground (arith, wait_loop-zero rounds (omega arith)))

-- A thread that waits alone has returned by the end of the rounds, of which there is at least one,
-- exactly if there was an interrupt before or during them, if there were fewer than 2^31.
pub wait_loop_lem :
    (first : ℕ) (rounds : List ℕ) (counter : ℕ)
    → counter + total (first ∷ rounds) < 2 ^ 31
    → is_some (wait_loop (first ∷ rounds) counter) ≡ ltb 0 (counter + total (first ∷ rounds))
wait_loop_lem first rounds counter small =
    rw (wait_loop-cons first rounds counter (omega arith))
      (ground (arith, wait_loop-zero rounds (omega arith)))
