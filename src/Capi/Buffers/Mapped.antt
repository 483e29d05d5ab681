-- ===== src/Capi/Buffers/Mapped.antt =====
-- The stages of `pd_allocKernelMemory` of pciDriver_Capi.c.
use fpga_pcie_drivers.Common.{
  ℕ, ◌≡◌, ◌<◌, ◌+◌, ◌-◌, refl, inl, inr, Bool, true, false, none, some, List, [], ◌∷◌, ◌++◌, arith,
  Option-cases, get_last?, find_by, ◌^◌, if◌then◌else◌,
}
use fpga_pcie_drivers.Kernel.{ok, err, eagain, failed, act, remap_cpua_range}
use fpga_pcie_drivers.Device.{KmemHandle, KmemEntry, Privdata, ulong, mmap_kmem}
use fpga_pcie_drivers.Kmem.{
  AllocAnswer, kmem_alloc, kmem_free, kmem_find_entry, kmem_free_entry, mmap_kmem_buffer,
  wrong_size,
}
use fpga_pcie_drivers.Base.Mmap.{mmap}
use fpga_pcie_drivers.Ioctl.Config.{silent, kmem_handle, ioctl_mmap_mode}
use fpga_pcie_drivers.Ioctl.Calls.{ioctl_kmem_alloc, ioctl_kmem_free}
use fpga_pcie_drivers.Capi.Process.{VmAnswer, stack, mmap_device, page_align}

-- the ioctls without the copies
pub alloc_called :
    (k : AllocAnswer) (d : Privdata) (h : KmemHandle)
    → (kmem_alloc k d h).0 ≡ ok
    → ioctl_kmem_alloc stack k d h
      ≡ (ok, kmem_handle (kmem_alloc k d h).1, (kmem_alloc k d h).2, (kmem_alloc k d h).3)
unfolding ioctl_kmem_alloc
alloc_called k d h good = ground arith

pub alloc_refused :
    (k : AllocAnswer) (d : Privdata) (h : KmemHandle)
    → failed (kmem_alloc k d h).0 ≡ true
    → ioctl_kmem_alloc stack k d h
      ≡ ((kmem_alloc k d h).0, silent, (kmem_alloc k d h).2, (kmem_alloc k d h).3)
unfolding ioctl_kmem_alloc
alloc_refused k d h bad = ground arith

pub free_called :
    (d : Privdata) (h : KmemHandle)
    → ioctl_kmem_free stack d h ≡ ((kmem_free d h).0, silent, (kmem_free d h).1, (kmem_free d h).2)
unfolding ioctl_kmem_free
free_called d h = refl

pub free_moded :
    (d : Privdata) (mode : ℕ) (h : KmemHandle)
    → kmem_free (record d { mmap_mode = mode }) h
      ≡ ((kmem_free d h).0, record (kmem_free d h).1 { mmap_mode = mode }, (kmem_free d h).2)
unfolding kmem_free kmem_find_entry kmem_free_entry
free_moded d mode h = elim (Option-cases (find_by (λ e. e.dma_handle) h.pa d.kmem_list)) [
  | inl e ↦ rw (e, kmem_free) refl
  | inr (x, e) ↦ rw (e, kmem_free) refl
]

-- `pcidriver_kmem_free` looks at the bus address alone.
pub free_by_address :
    (d : Privdata) (h : KmemHandle) (size handle_id : ℕ)
    → kmem_free d (record { pa = h.pa; size = size; handle_id = handle_id }) ≡ kmem_free d h
unfolding kmem_free kmem_find_entry
free_by_address d h size handle_id = refl

pub mode_called :
    (d : Privdata)
    → ioctl_mmap_mode d mmap_kmem ≡ (ok, silent, record d { mmap_mode = mmap_kmem }, [])
unfolding ioctl_mmap_mode
mode_called d = refl

pub get_last-snoc : (xs : List KmemEntry) (e : KmemEntry) → get_last? (xs ++ e ∷ []) ≡ some e
get_last-snoc [] e = refl
get_last-snoc (x ∷ []) e = refl
get_last-snoc (x ∷ y ∷ xs) e = get_last-snoc (y ∷ xs) e

-- The last buffer of the list is what a process maps that asks for as many bytes as it has.
latest_mapped :
    (remapped : Bool) (d : Privdata) (start : ℕ) (xs : List KmemEntry) (e : KmemEntry)
    → d.kmem_list ≡ xs ++ e ∷ []
    → e.size < 2 ^ 32
    → mmap_kmem_buffer remapped d start (start + page_align e.size)
      ≡ (if remapped then ok else err eagain, act (remap_cpua_range start e.cpua e.size) ∷ [])
unfolding mmap_kmem_buffer
latest_mapped remapped d start xs e list small =
    let latest : get_last? d.kmem_list ≡ some e = rw list (get_last-snoc xs e) in
    let whole : ulong (start + page_align e.size + 2 ^ 64 - start) ≡ page_align e.size =
      omega arith in
    let right : wrong_size (page_align e.size) e.size ≡ false = unfold wrong_size in ground arith in
    rw (latest, whole, right, mmap_kmem_buffer) refl

pub mapped :
    (v : VmAnswer) (d : Privdata) (start : ℕ) (xs : List KmemEntry) (e : KmemEntry)
    → v.start ≡ some start
    → d.mmap_mode ≡ mmap_kmem
    → d.kmem_list ≡ xs ++ e ∷ []
    → e.size < 2 ^ 32
    → mmap_device v d e.size
      ≡ (if v.remapped then some start else none, act (remap_cpua_range start e.cpua e.size) ∷ [])
unfolding mmap_device mmap
mapped v d start xs e starts mode list small =
    let last = latest_mapped v.remapped d start xs e list small in ground arith

-- without a range from the kernel
pub unmapped :
    (v : VmAnswer) (d : Privdata) (length : ℕ)
    → v.start ≡ none
    → mmap_device v d length ≡ (none, [])
unfolding mmap_device
unmapped v d length e = rw (e, mmap_device) refl
