-- ===== src/Capi/Process.antt =====
-- What a process of pciDriver_Capi.c has: an open device, and the mutex of its mappings. And what its
-- calls of the kernel come to.
use fpga_pcie_drivers.Common.{
  ℕ, ◌+◌, ◌-◌, ◌*◌, ◌/◌, ◌^◌, Bool, true, false, Option, none, some, List, [], if◌then◌else◌,
}
use fpga_pcie_drivers.Kernel.{Status, ok, err, failed, Event}
use fpga_pcie_drivers.Device.{KmemHandle, UmemHandle, UmemSglist, Privdata, page_size}
use fpga_pcie_drivers.Base.Mmap.{mmap}
use fpga_pcie_drivers.Ioctl.Config.{
  User, PciBoardInfo, PciCfgCmd, Reply, cfg, info, kmem_handle, umem_handle, sglist,
}

-- `pd_device_t`, with the driver's state of the device. `locked` is `mmap_mutex`.
pub record Process : Type 0 where
  pub device : Privdata
  pub locked : Bool

-- The process after a call of the driver.
abbrev pub on : Process → Privdata → Process
on p d = record p { device = d }

abbrev pub unlocked : Process → Process
unlocked p = record p { locked = false }

-- `pthread_mutex_lock`: none if the mutex is taken, by whom it never is given back.
abbrev pub lock : Process → Option Process
lock p = if p.locked then none else some (record p { locked = true })

-- A structure on the stack can be copied from and to.
abbrev pub stack : User
stack = record { readable = true; writable = true }

-- an `int` of -1
abbrev pub minus_one : ℕ
minus_one = 2 ^ 32 - 1

-- what libc's ioctl returns
abbrev pub result : Status → ℕ
result ok = 0
result (err e) = minus_one

-- a structure on the stack after an ioctl
abbrev pub kmem_reply : Reply → KmemHandle → KmemHandle
kmem_reply (kmem_handle h) old = h
kmem_reply r old = old

abbrev pub umem_reply : Reply → UmemHandle → UmemHandle
umem_reply (umem_handle h) old = h
umem_reply r old = old

abbrev pub sglist_reply : Reply → UmemSglist → UmemSglist
sglist_reply (sglist l) old = l
sglist_reply r old = old

abbrev pub info_reply : Reply → PciBoardInfo → PciBoardInfo
info_reply (info i) old = i
info_reply r old = old

abbrev pub cfg_reply : Reply → PciCfgCmd → PciCfgCmd
cfg_reply (cfg c) old = c
cfg_reply r old = old

-- What the kernel answers to mmap: the start of the range, if it has one; and whether the driver's
-- remapping works.
pub record VmAnswer : Type 0 where
  pub start : Option ℕ
  pub remapped : Bool

-- the length of the range for `length` bytes
abbrev pub page_align : ℕ → ℕ
page_align length = (length + (page_size - 1)) / page_size * page_size

-- `mmap` of `length` bytes of the device; none for MAP_FAILED and NULL
unfoldable pub mmap_device : VmAnswer → Privdata → ℕ → Option ℕ × List Event
mmap_device v d length = elim v.start [
  | none ↦ (none, [])
  | some start ↦
      let (status, calls) = mmap v.remapped d start (start + page_align length) in
      (if failed status then none else some start, calls)
]

-- `pd_open`, with the device that the node opens, none if it cannot be opened.
unfoldable pub pd_open : Option Privdata → ℕ × Option Process
pd_open none = (minus_one, none)
pd_open (some d) = (0, some (record { device = d; locked = false }))

-- `pd_close`, with the answer of close; the process is gone.
unfoldable pub pd_close : Status → Process → ℕ
pd_close closed p = result closed
