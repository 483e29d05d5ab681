-- ===== src/Irq/Handled.antt =====
-- What one run of the interrupt handler does.
use fpga_pcie_drivers.Common.{
  ℕ, zero, suc, ◌/◌, ◌∙◌, sym, get_elem?, ◌+◌, ◌≡◌, refl, true, false, Option, none, some, List, [],
  ◌∷◌, ◌==◌, if◌then◌else◌, arith, is_some, ◌⊎◌, inl, inr, Bool, Bool-cases, not, ◌&&◌,
}
use Prim.Native.Nat.{bit_and, bit_and-bitwise, digits, min}
use fpga_pcie_drivers.Kernel.{Event, act, write_reg}
use fpga_pcie_drivers.Device.{Privdata, uint}
use fpga_pcie_drivers.Irq.Handler.{
  Registers, is_abb, check_channel, check_channels, has_bar0, handled, irq_acknowledge, irq_handler,
  count_irq, abb_int_enable, abb_int_ch0, abb_int_ch1, abb_int_ig, abb_int_ch0_timeout,
  abb_int_ch1_timeout, abb_irq_ch0, abb_irq_ch1, abb_irq_ig,
}

-- The interrupts in the order of their priority, each with the channel that waits for it.
abbrev pub priorities : List (ℕ × ℕ)
priorities =
    (abb_int_ch0, abb_irq_ch0)
    ∷ (abb_int_ch1, abb_irq_ch1)
    ∷ (abb_int_ig, abb_irq_ig)
    ∷ (abb_int_ch0_timeout, abb_irq_ch0)
    ∷ (abb_int_ch1_timeout, abb_irq_ch1)
    ∷ []

-- The channel of the first interrupt of the list that is pending in the status.
abbrev pub pending : ℕ → List (ℕ × ℕ) → Option ℕ
pending stat [] = none
pending stat ((interrupt, channel) ∷ rest) =
    if bit_and stat interrupt == 0 then pending stat rest else some channel

-- The device after an interrupt on a channel: that channel's counter and the total are one more.
abbrev pub delivered : Option ℕ → Privdata → Privdata
delivered none d = d
delivered (some channel) d = record (count_irq channel d) { irq_count = uint (d.irq_count + 1) }

check_channels-pending :
    (r : Registers) (d : Privdata) (stat : ℕ)
    → ((round : ℕ) → r.stat round ≡ stat)
    → ((handled (check_channels r d)).0 ≡ is_some (pending stat priorities))
      × ((handled (check_channels r d)).1 ≡ delivered (pending stat priorities) d)
unfolding check_channels check_channel
check_channels-pending r d stat same = ground (arith, same 0, same 1, same 2, same 3, same 4)

-- a run on an ABB board with BAR 0, on one without, and on another board
module _ (r : Registers) (d : Privdata) where
  pub irq_handler-abb :
      is_abb d ≡ true → has_bar0 d ≡ true → irq_handler r d ≡ some (handled (check_channels r d))
  unfolding irq_handler irq_acknowledge
  irq_handler-abb abb mapped = rw (irq_handler, irq_acknowledge, abb, mapped) refl

  pub irq_handler-null : is_abb d ≡ true → has_bar0 d ≡ false → irq_handler r d ≡ none
  unfolding irq_handler irq_acknowledge
  irq_handler-null abb unmapped = rw (irq_handler, irq_acknowledge, abb, unmapped) refl

  pub irq_handler-other : is_abb d ≡ false → irq_handler r d ≡ some (false, d, [])
  unfolding irq_handler irq_acknowledge
  irq_handler-other other = rw (irq_handler, irq_acknowledge, other) refl

by_parts :
    (out : Bool × Privdata × List Event) (b : Bool) (d : Privdata)
    → (handled out).0 ≡ b
    → (handled out).1 ≡ d
    → some (handled out) ≡ some (b, d, (handled out).2)
by_parts out b d ours after = rw (sym ours, sym after) refl

-- whether the handler reads through a null pointer
abbrev pub reads_null : Privdata → Bool
reads_null d = is_abb d && not (has_bar0 d)

-- If the status does not change during the run, the handler serves the first pending interrupt by
-- priority, and nothing else: on an ABB board it reports the interrupt as its own exactly if one is
-- pending, and raises that channel's counter and the total by one. Otherwise, and on every other
-- board, the device stays as it was. It does not come to an end exactly on an ABB board whose BAR 0 is
-- not mapped, where it reads through a null pointer.
pub irq_handler-pending :
    (r : Registers) (d : Privdata) (stat : ℕ)
    → ((round : ℕ) → r.stat round ≡ stat)
    → let served = if is_abb d then pending stat priorities else none in
      ((reads_null d ≡ true) × (irq_handler r d ≡ none))
      ⊎ ((reads_null d ≡ false)
          × ((calls : List Event) × (irq_handler r d
                ≡ some (is_some served, delivered served d, calls))))
irq_handler-pending r d stat same =
    let (ours, after) = check_channels-pending r d stat same in
    let out = handled (check_channels r d) in
    elim (Bool-cases (is_abb d)) [
      | inl abb ↦ elim (Bool-cases (has_bar0 d)) [
        | inl mapped ↦
            let e = irq_handler-abb r d abb mapped ∙ by_parts (check_channels r d) _ _ ours after in
            rw (abb, mapped) (inr (refl, (out.2, e)))
        | inr unmapped ↦ rw (abb, unmapped) (inl (refl, irq_handler-null r d abb unmapped))
      ]
      | inr other ↦ rw other (inr (refl, ([], irq_handler-other r d other)))
    ]

no_digits : (n a : ℕ) → digits (λ b. zero) min n a 0 ≡ 0
no_digits zero a = refl
no_digits (suc n) zero = refl
no_digits (suc n) (suc a) = omega (arith, no_digits n (suc a / 2))

bit_and-zero : (a : ℕ) → bit_and a 0 ≡ 0
bit_and-zero a = bit_and-bitwise a 0 ∙ no_digits a a

-- Whenever the handler serves an interrupt, the first thing that it does to the board is to write
-- 0 to the enable register: all interrupts are masked, not only the one that was served.
check_channels_masks_all :
    (r : Registers) (d : Privdata)
    → (check_channels r d).0 ≡ true
    → get_elem? (check_channels r d).2 0 ≡ some (act (write_reg abb_int_enable 0))
unfolding check_channels check_channel
check_channels_masks_all r d served = ground (arith, bit_and-zero r.enable)

-- Where the checks find no interrupt, they have touched nothing: the device is as before, and no
-- register was written.
check_channels_declines :
    (r : Registers) (d : Privdata)
    → (check_channels r d).0 ≡ false
    → ((check_channels r d).1 ≡ d) × ((check_channels r d).2 ≡ [])
unfolding check_channels check_channel
check_channels_declines r d not_ours = ground arith
