-- ===== src/Cpp/Device.antt =====
-- `PciDevice` of PciDevice.cpp, but for its memory: its life, its interrupts and its configuration; and
-- the class of exceptions.
use fpga_pcie_drivers.Common.{
  ℕ, zero, suc, ◌+◌, ◌*◌, ◌/◌, ◌%◌, ◌^◌, ◌≡◌, refl, Bool, Bool-cases, inl, inr, true, false, Option,
  none, some, List, ◌==◌, ltb, get_or, if◌then◌else◌,
}
use mathlib.Core.Option
use fpga_pcie_drivers.Kernel.{Status, failed, Event}
use fpga_pcie_drivers.Device.{Privdata, uint}
use fpga_pcie_drivers.Ioctl.Calls.{ioctl_clear_ioq}
use fpga_pcie_drivers.Ioctl.Dispatch.{ioctl_wait_interrupt}
use fpga_pcie_drivers.Capi.Pagemask.{pagemask_loop}
use fpga_pcie_drivers.Capi.Process.{Process, on}
use fpga_pcie_drivers.Capi.Bars.{InfoAnswer, board_info}

-- `Exception::Type`
pub data Exception : Type 0 where
  unknown device_not_found invalid_bar internal_error open_failed not_open : Exception
  mmap_failed alloc_failed sgmap_failed interrupt_failed : Exception

-- A result, or the exception that is thrown.
pub data Outcome {ℓ} (A : Type ℓ) : Type ℓ where
  returns : A → Outcome A
  throws : Exception → Outcome A

-- What a call ends with: the exception if it throws one, the process and the calls.
abbrev pub Ended : Type 0
Ended = Option Exception × Process × List Event

-- `PciDevice`: the process's device and mutex, whether `handle` is not -1, and what the constructor
-- computes from the page size.
pub record PciDevice : Type 0 where
  pub process : Process
  pub is_open : Bool
  pub pagemask : ℕ
  pub pageshift : ℕ

-- The constructor's loop with `temp`, `pagemask` and `pageshift` as they are, on fuel: the mask and the
-- shift, none if the loop has not ended.
unfoldable pub mask_loop : ℕ → ℕ → ℕ → ℕ → Option (ℕ × ℕ)
mask_loop zero temp pagemask pageshift = none
mask_loop (suc fuel) temp pagemask pageshift =
    let rest = mask_loop fuel (temp / 2) (uint (pagemask * 2 + 1)) (uint (pageshift + 1)) in
    if temp == 1 then some (pagemask, pageshift) else rest

-- `PciDevice::PciDevice`, with the answer of stat; none if the loop does not end
unfoldable pub new_pci_device : Status → ℕ → Privdata → Option (Outcome PciDevice)
new_pci_device found pagesize d =
    if failed found then some (throws device_not_found) else elim (mask_loop 32 pagesize 0 0) [
      | none ↦ none
      | some (mask, shift) ↦ some (
          returns (record {
            process = record { device = d; locked = false };
            is_open = false;
            pagemask = mask;
            pageshift = shift;
          }))
    ]

-- `open`, with the answer of the call that it shares its name with
unfoldable pub open_device : Status → PciDevice → Option Exception × PciDevice
open_device opened dev =
    if dev.is_open
    then (none, dev)
    else if failed opened
    then (some open_failed, dev)
    else (none, record dev { is_open = true })

-- `close`
unfoldable pub close_device : PciDevice → PciDevice
close_device dev = record dev { is_open = false }

-- `waitForInterrupt`; none if it still waits
unfoldable pub wait_for_interrupt : List ℕ → PciDevice → ℕ → Option (Option Exception × Process)
wait_for_interrupt rounds dev int_id =
    if dev.is_open
    then elim (ioctl_wait_interrupt rounds dev.process.device int_id) [
      | none ↦ none
      | some (status, reply, d, calls) ↦
          some (if failed status then some interrupt_failed else none, on dev.process d)
    ]
    else some (some not_open, dev.process)

-- `clearInterruptQueue`
unfoldable pub clear_interrupt_queue : PciDevice → ℕ → Option Exception × Process
clear_interrupt_queue dev int_id =
    let (status, reply, d, calls) = ioctl_clear_ioq dev.process.device int_id in
    if dev.is_open
    then (if failed status then some internal_error else none, on dev.process d)
    else (some not_open, dev.process)

-- `getBARsize`; the size is cut to an `unsigned int`.
unfoldable pub get_bar_size : InfoAnswer → PciDevice → ℕ → Outcome ℕ
get_bar_size k dev bar =
    let (status, i, calls) = board_info k dev.process in
    if dev.is_open
    then (if ltb 5 bar
        then throws invalid_bar
        else if failed status
        then throws internal_error
        else returns (uint (get_or i.bar_length bar 0)))
    else throws not_open

-- `getBus` and `getSlot`, cut to an `unsigned short`
unfoldable pub get_bus : InfoAnswer → PciDevice → Outcome ℕ
get_bus k dev =
    let (status, i, calls) = board_info k dev.process in
    if dev.is_open
    then (if failed status then throws internal_error else returns (i.bus % 2 ^ 16))
    else throws not_open

unfoldable pub get_slot : InfoAnswer → PciDevice → Outcome ℕ
get_slot k dev =
    let (status, i, calls) = board_info k dev.process in
    if dev.is_open
    then (if failed status then throws internal_error else returns (i.slot % 2 ^ 16))
    else throws not_open

-- The constructor's loop gives the mask of the C library, whatever the shift.
pub mask_loop-pagemask_loop :
    (fuel temp mask shift : ℕ)
    → Option.map (λ r. r.0) (mask_loop fuel temp mask shift) ≡ pagemask_loop fuel temp mask
unfolding mask_loop pagemask_loop
mask_loop-pagemask_loop zero temp mask shift = refl
mask_loop-pagemask_loop (suc fuel) temp mask shift =
    let rest = mask_loop-pagemask_loop fuel (temp / 2) (uint (mask * 2 + 1)) (uint (shift + 1)) in
    elim (Bool-cases (temp == 1)) [ inl e ↦ rw e refl | inr e ↦ rw e rest ]
