-- ===== src/Cpp/Bars.antt =====
-- `mapBAR` and `unmapBAR` of PciDevice.cpp.
use fpga_pcie_drivers.Common.{
  ℕ, ◌+◌, ◌-◌, ◌^◌, ◌<◌, ◌≡◌, refl, inl, inr, true, Bool-cases, Option-cases, Option, none, some,
  List, [], ◌∷◌, ◌++◌, ◌==◌, ltb, get_or, if◌then◌else◌, arith,
}
use mathlib.Core.Option
use Prim.Native.Nat.{bit_and}
use fpga_pcie_drivers.Kernel.{failed, Event, act, munmap}
use fpga_pcie_drivers.Device.{Privdata, ulong, uint, mmap_pci, page_size}
use fpga_pcie_drivers.Ioctl.Config.{PciBoardInfo, ioctl_mmap_mode, ioctl_mmap_area}
use fpga_pcie_drivers.Capi.Pagemask.{pd_getpagemask}
use fpga_pcie_drivers.Capi.Process.{Process, on, unlocked, lock, VmAnswer, mmap_device}
use fpga_pcie_drivers.Capi.Bars.{InfoAnswer, board_info, pd_map_bar, map_locked, pd_unmap_bar}
use fpga_pcie_drivers.Cpp.Device.{
  invalid_bar, internal_error, not_open, mmap_failed, Exception, Outcome, returns, throws,
  PciDevice,
}

-- The pointer, none for NULL; the process and the calls. None if it waits for the mutex.
abbrev pub Mapped : Type 0
Mapped = Option (Outcome (Option ℕ) × Process × List Event)

-- with the mutex taken, by `p`
unfoldable pub map_taken : VmAnswer → PciBoardInfo → PciDevice → Process → ℕ → List Event → Mapped
map_taken v i dev p bar calls =
    let (mode_status, mode_reply, moded, mode_calls) = ioctl_mmap_mode p.device mmap_pci in
    let (area_status, area_reply, set, area_calls) = ioctl_mmap_area moded bar in
    let (start, mapping) = mmap_device v set (get_or i.bar_length bar 0) in
    let offset = uint (bit_and (get_or i.bar_start bar 0) dev.pagemask) in
    let all = calls ++ mode_calls ++ area_calls ++ mapping in
    if failed mode_status
    then some (throws internal_error, on p moded, calls ++ mode_calls)
    else if failed area_status
    then some (throws internal_error, on p set, calls ++ mode_calls ++ area_calls)
    else elim start [
      | none ↦ some (throws mmap_failed, unlocked (on p set), all)
      | some mem ↦ some (
        returns (some (if offset == 0 then mem else ulong (mem + offset))),
        unlocked (on p set),
        all,
      )
    ]

-- `mapBAR`
unfoldable pub map_bar : InfoAnswer → VmAnswer → PciDevice → ℕ → Mapped
map_bar k v dev bar =
    let (status, i, calls) = board_info k dev.process in
    if dev.is_open
    then (if ltb 5 bar
        then some (throws invalid_bar, dev.process, [])
        else if failed status
        then some (returns none, dev.process, calls)
        else elim (lock dev.process) [ none ↦ none | some q ↦ map_taken v i dev q bar calls ])
    else some (throws not_open, dev.process, [])

-- `unmapBAR`
unfoldable pub unmap_bar : InfoAnswer → PciDevice → ℕ → ℕ → Option Exception × List Event
unmap_bar k dev bar ptr =
    let (status, i, calls) = board_info k dev.process in
    let offset = uint (bit_and (get_or i.bar_start bar 0) dev.pagemask) in
    let place = if offset == 0 then ptr else ulong (ptr + 2 ^ 64 - offset) in
    if dev.is_open
    then (if ltb 5 bar
        then (some invalid_bar, [])
        else if failed status
        then (some invalid_bar, calls)
        else (none, calls ++ act (munmap place (get_or i.bar_length bar 0)) ∷ []))
    else (some not_open, [])

-- a result of the class, as the C library gives it
abbrev pub or_null : Outcome (Option ℕ) → Option ℕ
or_null (returns mem) = mem
or_null (throws e) = none

abbrev pub as_mapped : Outcome (Option ℕ) × Process × List Event → Option ℕ × Process × List Event
as_mapped (mem, q, calls) = (or_null mem, q, calls)

start_below :
    (v : VmAnswer) (d : Privdata) (length mem : ℕ)
    → ((a : ℕ) → v.start ≡ some a → a < 2 ^ 64)
    → (mmap_device v d length).0 ≡ some mem
    → mem < 2 ^ 64
unfolding mmap_device
start_below v d length mem below e = elim (Option-cases v.start) [
  | inl none_there ↦ ground arith
  | inr (a, there) ↦ let small = below a there in ground arith
]

adjusted :
    (mem offset : ℕ)
    → mem < 2 ^ 64
    → (if offset == 0 then mem else ulong (mem + offset)) ≡ ulong (mem + offset)
adjusted mem offset small = ground arith

map_taken-map_locked :
    (v : VmAnswer) (i : PciBoardInfo) (dev : PciDevice) (p : Process) (bar : ℕ) (calls : List Event)
    → pd_getpagemask page_size ≡ some dev.pagemask
    → ((a : ℕ) → v.start ≡ some a → a < 2 ^ 64)
    → Option.map as_mapped (map_taken v i dev p bar calls) ≡ map_locked v i p bar calls
unfolding map_taken map_locked
map_taken-map_locked v i dev p bar calls mask below =
    let moded = ioctl_mmap_mode p.device mmap_pci in
    let area = ioctl_mmap_area moded.2 bar in
    let offset = uint (bit_and (get_or i.bar_start bar 0) dev.pagemask) in
    elim (Bool-cases (failed moded.0)) [
      | inl e ↦ rw e refl
      | inr e ↦ elim (Bool-cases (failed area.0)) [
        | inl e' ↦ rw (e, e') refl
        | inr e' ↦ elim (Option-cases (mmap_device v area.2 (get_or i.bar_length bar 0)).0) [
          | inl none_there ↦ rw (e, e', none_there) refl
          | inr (mem, there) ↦
              let small = start_below v area.2 (get_or i.bar_length bar 0) mem below there in
              rw (e, e', there, mask, adjusted mem offset small) refl
        ]
      ]
    ]

-- Ranges of the process lie below 2 ^ 64, and the class has computed the page's mask. On an open device
-- `mapBAR` does what `pd_mapBAR` does, on every path: the same calls, the same state of the driver and
-- of the mutex, and the same pointer, where an exception stands for NULL.
map_bar-pd_map_bar :
    (k : InfoAnswer) (v : VmAnswer) (dev : PciDevice) (bar : ℕ)
    → dev.is_open ≡ true
    → pd_getpagemask page_size ≡ some dev.pagemask
    → ((a : ℕ) → v.start ≡ some a → a < 2 ^ 64)
    → Option.map as_mapped (map_bar k v dev bar) ≡ pd_map_bar k v dev.process bar
unfolding map_bar pd_map_bar
map_bar-pd_map_bar k v dev bar opened mask below =
    let info = board_info k dev.process in
    elim (Bool-cases (ltb 5 bar)) [
      | inl e ↦ rw (opened, e) refl
      | inr e ↦ elim (Bool-cases (failed info.0)) [
        | inl e' ↦ rw (opened, e, e') refl
        | inr e' ↦ elim (Option-cases (lock dev.process)) [
          | inl waits ↦ rw (opened, e, e', waits) refl
          | inr (q, locked) ↦
              rw (opened, e, e', locked) (map_taken-map_locked v info.1 dev q bar info.2 mask below)
        ]
      ]
    ]

-- the bytes of a BAR's place in its page, as they are taken off a pointer
placed :
    (ptr offset : ℕ)
    → ptr < 2 ^ 64
    → (if offset == 0 then ptr else ulong (ptr + 2 ^ 64 - offset)) ≡ ulong (ptr + 2 ^ 64 - offset)
placed ptr offset small = ground arith

-- On an open device with the mask of the page, for a pointer below 2 ^ 64, `unmapBAR` makes the same
-- calls as `pd_unmapBAR`.
unmap_bar-pd_unmap_bar :
    (k : InfoAnswer) (dev : PciDevice) (bar ptr : ℕ)
    → dev.is_open ≡ true
    → pd_getpagemask page_size ≡ some dev.pagemask
    → ptr < 2 ^ 64
    → Option.map (λ r. r.1) (pd_unmap_bar k dev.process bar ptr) ≡ some (unmap_bar k dev bar ptr).1
unfolding unmap_bar pd_unmap_bar
unmap_bar-pd_unmap_bar k dev bar ptr opened mask small =
    let info = board_info k dev.process in
    let same = placed ptr (uint (bit_and (get_or info.1.bar_start bar 0) dev.pagemask)) small in
    elim (Bool-cases (ltb 5 bar)) [
      | inl e ↦ rw (opened, e) refl
      | inr e ↦ elim (Bool-cases (failed info.0)) [
        | inl e' ↦ rw (opened, e, e') refl
        | inr e' ↦ rw (opened, e, e', mask, same) refl
      ]
    ]
