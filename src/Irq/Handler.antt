-- ===== src/Irq/Handler.antt =====
-- The interrupt handler of int.c: `check_acknowlegde_channel`, `pcidriver_irq_acknowledge` and
-- `pcidriver_irq_handler`.
use fpga_pcie_drivers.Common.{
  ℕ, ◌+◌, Bool, true, false, Option, none, some, is_some, List, [], ◌∷◌, ◌++◌, ◌&&◌, ◌==◌,
  if◌then◌else◌, get_or, set,
}
use Prim.Native.Nat.{bit_and}
use fpga_pcie_drivers.Kernel.{Event, act, write_reg, wake_up}
use fpga_pcie_drivers.Device.{Privdata, uint}

-- PCIEABB_VENDOR_ID, PCIEABB_DEVICE_ID
abbrev pub pcieabb_vendor_id : ℕ
pcieabb_vendor_id = 0x10dc

abbrev pub pcieabb_device_id : ℕ
pcieabb_device_id = 0x0153

-- ABB_IRQ_CH0, ABB_IRQ_CH1, ABB_IRQ_IG
abbrev pub abb_irq_ch0 : ℕ
abb_irq_ch0 = 0

abbrev pub abb_irq_ch1 : ℕ
abb_irq_ch1 = 1

abbrev pub abb_irq_ig : ℕ
abb_irq_ig = 2

-- ABB_INT_ENABLE, ABB_IG_CTRL and ABB_IG_ACK; registers by their index
abbrev pub abb_int_enable : ℕ
abb_int_enable = 4

abbrev pub abb_ig_ctrl : ℕ
abb_ig_ctrl = 32

abbrev pub abb_ig_ack : ℕ
abb_ig_ack = 0x00f0

-- ABB_INT_CH1_TIMEOUT, ABB_INT_CH0_TIMEOUT, ABB_INT_IG, ABB_INT_CH0, ABB_INT_CH1
abbrev pub abb_int_ch1_timeout : ℕ
abb_int_ch1_timeout = 16

abbrev pub abb_int_ch0_timeout : ℕ
abb_int_ch0_timeout = 32

abbrev pub abb_int_ig : ℕ
abb_int_ig = 4

abbrev pub abb_int_ch0 : ℕ
abb_int_ch0 = 2

abbrev pub abb_int_ch1 : ℕ
abb_int_ch1 = 1

-- What the device's registers read: the status, at each of the five checks, and the enable mask.
pub record Registers : Type 0 where
  pub stat : ℕ → ℕ
  pub enable : ℕ

-- C's `!`
abbrev pub logical_not : ℕ → ℕ
logical_not n = if n == 0 then 1 else 0

-- `atomic_inc` on the counter of a channel
abbrev pub count_irq : ℕ → Privdata → Privdata
count_irq channel d = record d {
  irq_outstanding = set d.irq_outstanding channel (uint (get_or d.irq_outstanding channel 0 + 1));
}

-- `check_acknowlegde_channel`, the check number `round` of a handler's run
unfoldable pub check_channel : Registers → ℕ → ℕ → ℕ → Privdata → Bool × Privdata × List Event
check_channel r round interrupt channel d =
    if bit_and (r.stat round) interrupt == 0 then (false, d, []) else (
      true,
      count_irq channel d,
      act (write_reg abb_int_enable (bit_and r.enable (logical_not interrupt)))
            ∷ (if interrupt == abb_int_ig then act (write_reg abb_ig_ctrl abb_ig_ack) ∷ [] else [])
          ++ act (wake_up channel) ∷ [],
    )

-- the board test of `pcidriver_irq_acknowledge`
abbrev pub is_abb : Privdata → Bool
is_abb d = d.pdev.vendor == pcieabb_vendor_id && d.pdev.device == pcieabb_device_id

-- `if (check) return true;` before the rest of the checks
abbrev pub or_else :
    Bool × Privdata × List Event → Bool × Privdata × List Event → Bool × Privdata × List Event
or_else first rest = if first.0 then first else rest

-- the checks of `pcidriver_irq_acknowledge`, through the pointer to BAR 0
unfoldable pub check_channels : Registers → Privdata → Bool × Privdata × List Event
check_channels r d = or_else (check_channel r 0 abb_int_ch0 abb_irq_ch0 d) (
    or_else (check_channel r 1 abb_int_ch1 abb_irq_ch1 d) (
      or_else (check_channel r 2 abb_int_ig abb_irq_ig d) (
        or_else (check_channel r 3 abb_int_ch0_timeout abb_irq_ch0 d)
          (or_else (check_channel r 4 abb_int_ch1_timeout abb_irq_ch1 d) (false, d, [])))))

-- whether `bars_kmapped[0]` is a pointer that is not null
abbrev pub has_bar0 : Privdata → Bool
has_bar0 d = is_some (get_or d.bars_kmapped 0 none)

-- `pcidriver_irq_acknowledge`; none if it reads through a null pointer, which it does not test
unfoldable pub irq_acknowledge : Registers → Privdata → Option (Bool × Privdata × List Event)
irq_acknowledge r d =
    if is_abb d
    then (if has_bar0 d then some (check_channels r d) else none)
    else some (false, d, [])

-- `irq_count++` if the interrupt was acknowledged
abbrev pub handled : Bool × Privdata × List Event → Bool × Privdata × List Event
handled (true, d, calls) = (true, record d { irq_count = uint (d.irq_count + 1) }, calls)
handled (false, d, calls) = (false, d, calls)

-- `pcidriver_irq_handler`; true is IRQ_HANDLED, and none is the read through a null pointer
unfoldable pub irq_handler : Registers → Privdata → Option (Bool × Privdata × List Event)
unfolding irq_acknowledge
irq_handler r d = elim (irq_acknowledge r d) [ none ↦ none | some out ↦ some (handled out) ]
