-- ===== src/Capi/Bars.antt =====
-- The PCI functions of pciDriver_Capi.c: `pd_getID`, `pd_getBARsize`, `pd_mapBAR` and `pd_unmapBAR`; and
-- `pd_waitForInterrupt` and `pd_clearInterruptQueue`.
pub mod Mapped
pub mod Owned
use fpga_pcie_drivers.Common.{
  ℕ, ◌+◌, ◌-◌, ◌*◌, ◌^◌, Bool, true, false, not, ◌||◌, Option, none, some, List, [], ◌∷◌, ◌++◌,
  ◌==◌, ltb, get_or, if◌then◌else◌,
}
use Prim.Native.Nat.{bit_and}
use fpga_pcie_drivers.Kernel.{Status, failed, Event, act, munmap}
use fpga_pcie_drivers.Device.{Privdata, ulong, uint, mmap_pci, page_size}
use fpga_pcie_drivers.Ioctl.Config.{
  PciBoardInfo, Reply, ioctl_mmap_mode, ioctl_mmap_area, ioctl_pci_info,
}
use fpga_pcie_drivers.Ioctl.Calls.{ioctl_clear_ioq}
use fpga_pcie_drivers.Ioctl.Dispatch.{ioctl_wait_interrupt}
use fpga_pcie_drivers.Capi.Pagemask.{pd_getpagemask}
use fpga_pcie_drivers.Capi.Process.{
  Process, on, unlocked, lock, stack, minus_one, info_reply, VmAnswer, mmap_device,
}

-- What the kernel answers to PCIDRIVER_IOC_PCI_INFO, two configuration bytes or errors; and what the
-- structure on the stack holds before.
pub record InfoAnswer : Type 0 where
  pub pin : Status × ℕ
  pub line : Status × ℕ
  pub junk : PciBoardInfo

-- the ioctl: its status, the structure, and the calls; it leaves the device alone
abbrev pub board_info : InfoAnswer → Process → Status × PciBoardInfo × List Event
board_info k p =
    let (status, reply, d, calls) = ioctl_pci_info stack k.pin k.line p.device k.junk in
    (status, info_reply reply k.junk, calls)

-- `pd_getID`: the two numbers are joined by `||`.
unfoldable pub pd_get_id : InfoAnswer → Process → ℕ
pd_get_id k p =
    let (status, i, calls) = board_info k p in
    if failed status
    then minus_one
    else if not (i.vendor_id * 2 ^ 16 == 0) || not (i.device_id == 0)
    then 1
    else 0

-- `pd_getBARsize`; the size is cut to an `int`.
unfoldable pub pd_get_bar_size : InfoAnswer → Process → ℕ → ℕ
pd_get_bar_size k p bar =
    let (status, i, calls) = board_info k p in
    if ltb 5 bar
    then minus_one
    else if failed status
    then minus_one
    else uint (get_or i.bar_length bar 0)

-- The pointer that is returned, none for NULL; the process and the calls. None if the process waits
-- for the mutex, or the loop of `pd_getpagemask` does not end.
abbrev pub MappedBar : Type 0
MappedBar = Option (Option ℕ × Process × List Event)

-- the pointer to the BAR in the page that starts at `mem`
abbrev pub adjust : ℕ → ℕ → ℕ → Option ℕ
adjust mem start mask = some (ulong (mem + uint (bit_and start mask)))

-- with the mutex taken
unfoldable pub map_locked : VmAnswer → PciBoardInfo → Process → ℕ → List Event → MappedBar
map_locked v i p bar calls =
    let (mode_status, mode_reply, moded, mode_calls) = ioctl_mmap_mode p.device mmap_pci in
    let (area_status, area_reply, set, area_calls) = ioctl_mmap_area moded bar in
    let (start, mapping) = mmap_device v set (get_or i.bar_length bar 0) in
    let all = calls ++ mode_calls ++ area_calls ++ mapping in
    if failed mode_status
    then some (none, on p moded, calls ++ mode_calls)
    else if failed area_status
    then some (none, on p set, calls ++ mode_calls ++ area_calls)
    else elim start [
      | none ↦ some (none, unlocked (on p set), all)
      | some mem ↦ elim (pd_getpagemask page_size) [
        | none ↦ none
        | some mask ↦ some (adjust mem (get_or i.bar_start bar 0) mask, unlocked (on p set), all)
      ]
    ]

-- `pd_mapBAR`
unfoldable pub pd_map_bar : InfoAnswer → VmAnswer → Process → ℕ → MappedBar
pd_map_bar k v p bar =
    let (status, i, calls) = board_info k p in
    if ltb 5 bar
    then some (none, p, [])
    else if failed status
    then some (none, p, calls)
    else elim (lock p) [ none ↦ none | some q ↦ map_locked v i q bar calls ]

-- `pd_unmapBAR`; the result of munmap is not looked at.
unfoldable pub pd_unmap_bar : InfoAnswer → Process → ℕ → ℕ → Option (ℕ × List Event)
pd_unmap_bar k p bar ptr =
    let (status, i, calls) = board_info k p in
    if ltb 5 bar
    then some (minus_one, [])
    else if failed status
    then some (minus_one, calls)
    else elim (pd_getpagemask page_size) [
      | none ↦ none
      | some mask ↦
          let offset = uint (bit_and (get_or i.bar_start bar 0) mask) in
          some (
            0,
            calls ++ act (munmap (ulong (ptr + 2 ^ 64 - offset)) (get_or i.bar_length bar 0)) ∷ [],
          )
    ]

-- `pd_waitForInterrupt`; none if it still waits
unfoldable pub pd_wait_for_interrupt : List ℕ → Process → ℕ → Option (ℕ × Process)
pd_wait_for_interrupt rounds p int_id = elim (ioctl_wait_interrupt rounds p.device int_id) [
  | none ↦ none
  | some (status, reply, d, calls) ↦ some (if failed status then minus_one else 0, on p d)
]

-- `pd_clearInterruptQueue`
unfoldable pub pd_clear_interrupt_queue : Process → ℕ → ℕ × Process
pd_clear_interrupt_queue p int_id =
    let (status, reply, d, calls) = ioctl_clear_ioq p.device int_id in
    (if failed status then minus_one else 0, on p d)
