-- ===== src/Mprace/Descriptor.antt =====
-- `DMADescriptorWG` of DMADescriptorWG.h, and the control words of DMAEngineWG.cpp.
use fpga_pcie_drivers.Common.{ℕ, ◌+◌, ◌*◌, ◌/◌, ◌%◌, ◌^◌, Bool, ◌==◌, if◌then◌else◌}
use Prim.Native.Nat.{bit_and, bit_or}
use fpga_pcie_drivers.Device.{uint, ulong}

-- The eight words of the native descriptor, and `pa`, the bus address of the descriptor itself.
pub record Descriptor : Type 0 where
  pub per_addr_h : ℕ
  pub per_addr_l : ℕ
  pub host_addr_h : ℕ
  pub host_addr_l : ℕ
  pub next_bda_h : ℕ
  pub next_bda_l : ℕ
  pub length : ℕ
  pub control : ℕ
  pub pa : ℕ

-- HIGH and LOW
abbrev pub high : ℕ → ℕ
high x = uint (x / 2 ^ 32)

abbrev pub low : ℕ → ℕ
low x = x % 2 ^ 32

-- `getHostAddress` and `getNextDescriptorAddress`
abbrev pub host_address : Descriptor → ℕ
host_address d = ulong (d.host_addr_h * 2 ^ 32 + d.host_addr_l)

abbrev pub next_address : Descriptor → ℕ
next_address d = ulong (d.next_bda_h * 2 ^ 32 + d.next_bda_l)

-- the functions that set a field; a word keeps the low 32 bits
abbrev pub set_host : ℕ → Descriptor → Descriptor
set_host a d = record d { host_addr_h = high a; host_addr_l = low a }

abbrev pub set_peripheral : ℕ → Descriptor → Descriptor
set_peripheral a d = record d { per_addr_h = high a; per_addr_l = low a }

abbrev pub set_next : ℕ → Descriptor → Descriptor
set_next a d = record d { next_bda_h = high a; next_bda_l = low a }

abbrev pub set_length : ℕ → Descriptor → Descriptor
set_length n d = record d { length = uint n }

abbrev pub set_control : ℕ → Descriptor → Descriptor
set_control c d = record d { control = uint c }

abbrev pub ctrl_reset : ℕ
ctrl_reset = 0x0000000A

abbrev pub ctrl_inc : ℕ
ctrl_inc = 0x00008000

abbrev pub ctrl_upa : ℕ
ctrl_upa = 0x00100000

abbrev pub ctrl_last : ℕ
ctrl_last = 0x01000000

abbrev pub ctrl_v : ℕ
ctrl_v = 0x02000000

abbrev pub ctrl_edi : ℕ
ctrl_edi = 0x10000000

-- the number of the BAR, in its place in a control word
abbrev pub ctrl_bar : ℕ → ℕ
ctrl_bar bar = bit_and bar 7 * 2 ^ 16

-- the control word of the descriptors of a list
unfoldable pub control_word : ℕ → Bool → ℕ
control_word bar inc = bit_or (bit_or ctrl_v (ctrl_bar bar)) (if inc then ctrl_inc else 0)

-- the control word of the descriptor that is written to a channel; `last` for CTRL_LAST
unfoldable pub first_word : ℕ → Bool → ℕ
first_word word last = bit_or (bit_or word ctrl_upa) (if last then ctrl_last else 0)

-- whether CTRL_LAST is set in a control word
abbrev pub is_last : ℕ → Bool
is_last word = bit_and word ctrl_last == ctrl_last
