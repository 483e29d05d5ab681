-- ===== src/Kernel.antt =====
-- What the drivers see of the Linux kernel: return codes, the resources that they hold, and the
-- trace of calls that they make. The kernel's own code is no part of the repository: what a call
-- answers is an argument of the operation that makes it, and what the call does is an event.
use fpga_pcie_drivers.Common.{
  count-append, count-cons, count-nil, one, ℕ, Bool, true, false, List, [], ◌∷◌, ◌++◌, ◌≡◌, refl,
  ap, ◌⊎◌, inl, inr,
}

-- The error numbers that the drivers return; `other` is one that a kernel function returned and
-- the driver passes on.
pub data Errno : Type 0 where
  einval enomem efault eagain enxio eio enomsg enotty ebusy : Errno
  other : ℕ → Errno

-- The `int` that a function returns: 0, or a negative error number.
pub data Status : Type 0 where
  ok : Status
  err : Errno → Status

-- `ret != 0`
abbrev pub failed : Status → Bool
failed ok = false
failed (err e) = true

-- The name of a sysfs attribute: "kbuf%d", "umem%d", or one of the fixed ones, by its place in the
-- list of base.h.
pub data AttrName : Type 0 where
  kbuf : ℕ → AttrName
  umem : ℕ → AttrName
  fixed : ℕ → AttrName

-- What is taken from the kernel and has to be given back, with the arguments by which it is.
pub data Resource : Type 0 where
  block : ℕ → Resource  -- kcalloc, kmalloc, kstrdup; kfree
  vm_area : ℕ → Resource  -- vmalloc; vfree
  sysfs_file : AttrName → Resource  -- device_create_file; device_remove_file
  dma_buffer : ℕ → ℕ → ℕ → Resource  -- pci_alloc_consistent (size, cpu and bus address)
  page_ref : ℕ → Resource  -- get_user_pages; page_cache_release
  page_lock : ℕ → Resource  -- compat_lock_page; compat_unlock_page
  sg_mapping : ℕ → ℕ → Resource  -- pci_map_sg; pci_unmap_sg (table, entries)
  bar_region : ℕ → Resource  -- pci_request_region; pci_release_region
  bar_mapping : ℕ → Resource  -- ioremap; iounmap
  irq_handler : ℕ → Resource  -- request_irq; free_irq
  pci_device : Resource  -- pci_enable_device; pci_disable_device
  pci_driver : Resource  -- pci_register_driver; pci_unregister_driver
  chrdev_region : Resource  -- alloc_chrdev_region; unregister_chrdev_region
  driver_class : Resource  -- class_create; class_destroy
  class_device : ℕ → Resource  -- device_create; device_destroy
  char_device : ℕ → Resource  -- cdev_add; cdev_del
  misc_device : Resource  -- misc_register; misc_deregister
  msi : Resource  -- pci_enable_msi; pci_disable_msi
  dma_channel : ℕ → Resource  -- request_dma; free_dma
  dma_mapping : ℕ → ℕ → Resource  -- pci_map_single; pci_unmap_single (bus address, size)
  heap_block : ℕ → Resource  -- posix_memalign by a process; free
  module_ref : Resource  -- try_module_get; module_put

-- PCI_DMA_BIDIRECTIONAL, PCI_DMA_TODEVICE, PCI_DMA_FROMDEVICE
pub data Direction : Type 0 where
  bidirectional to_device from_device : Direction

-- Calls that take nothing.
pub data Action : Type 0 where
  sync_for_device : ℕ → ℕ → Direction → Action  -- pci_dma_sync_single_for_device
  sync_for_cpu : ℕ → ℕ → Direction → Action  -- pci_dma_sync_single_for_cpu
  sync_sg_for_device : ℕ → ℕ → Direction → Action  -- pci_dma_sync_sg_for_device
  sync_sg_for_cpu : ℕ → ℕ → Direction → Action  -- pci_dma_sync_sg_for_cpu
  set_page_dirty : ℕ → Action
  remap_pfn_range : ℕ → ℕ → ℕ → Action  -- vm_start, page frame, size
  io_remap_pfn_range : ℕ → ℕ → ℕ → Action
  remap_cpua_range : ℕ → ℕ → ℕ → Action  -- vm_start, cpu address, size
  set_master : Action
  map_single : ℕ → ℕ → Action  -- the arguments of pci_map_single: cpu address, size
  fill : ℕ → ℕ → ℕ → Action  -- memset: address, byte, size
  copy : ℕ → ℕ → Action  -- memcpy between user space and a kernel address: the latter, size
  map_bar : ℕ → Bool → Action  -- ioremap of a BAR if true, ioremap_nocache if not
  write_reg : ℕ → ℕ → Action  -- a 32-bit register of the device: its index or offset, value
  read_config : ℕ → ℕ → Action  -- pci_read_config_byte and its kin: size in bytes, address
  write_config : ℕ → ℕ → ℕ → Action  -- size, address, value
  munmap : ℕ → ℕ → Action  -- munmap by a process: address, length
  wake_up : ℕ → Action  -- wake_up_interruptible on a wait queue

pub data Event : Type 0 where
  acquire : Resource → Event
  release : Resource → Event
  act : Action → Event

-- What a trace takes, in order.
abbrev pub acquired : List Event → List Resource
acquired [] = []
acquired (acquire r ∷ es) = r ∷ acquired es
acquired (release r ∷ es) = acquired es
acquired (act a ∷ es) = acquired es

-- What a trace gives back, in order.
abbrev pub released : List Event → List Resource
released [] = []
released (acquire r ∷ es) = released es
released (release r ∷ es) = r ∷ released es
released (act a ∷ es) = released es

pub acquired-append : (es fs : List Event) → acquired (es ++ fs) ≡ acquired es ++ acquired fs
acquired-append [] fs = refl
acquired-append (acquire r ∷ es) fs = ap (λ rs. r ∷ rs) (acquired-append es fs)
acquired-append (release r ∷ es) fs = acquired-append es fs
acquired-append (act a ∷ es) fs = acquired-append es fs

pub released-append : (es fs : List Event) → released (es ++ fs) ≡ released es ++ released fs
released-append [] fs = refl
released-append (acquire r ∷ es) fs = released-append es fs
released-append (release r ∷ es) fs = ap (λ rs. r ∷ rs) (released-append es fs)
released-append (act a ∷ es) fs = released-append es fs

pub status-cases : (s : Status) → (s ≡ ok) ⊎ (failed s ≡ true)
status-cases ok = inl refl
status-cases (err e) = inr refl

-- Counting what a trace takes and gives back.
pub ruleset traces = (acquired-append, released-append, count-append, count-cons, count-nil, one)
