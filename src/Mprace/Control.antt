-- ===== src/Mprace/Control.antt =====
-- The last bit of the control words that DMAEngineWG.cpp builds.
use fpga_pcie_drivers.Common.{
  ℕ, zero, suc, ◌*◌, ◌%◌, ◌^◌, ◌≤◌, ◌≡◌, refl, ◌==◌, ==_iff, Bool-cases, inl, inr, Bool, true,
  false, ◌&&◌, not, arith, if◌then◌else◌,
}
use Prim.Native.Nat.{bit_or}
use fpga_pcie_drivers.Device.{uint}
use fpga_pcie_drivers.Capi.Pagemask.{bit_and-mask}
use fpga_pcie_drivers.Mprace.Descriptor.{
  ctrl_v, ctrl_inc, ctrl_last, control_word, first_word, is_last,
}

-- a test passed by a number and by all smaller ones
passes : (ℕ → Bool) → ℕ → Bool
passes test zero = test zero
passes test (suc bar) = if test (suc bar) then passes test bar else false

passes_lem : (test : ℕ → Bool) (top bar : ℕ) → bar ≤ top → passes test top ≡ true → test bar ≡ true
unfolding passes
passes_lem test zero zero within passed = passed
passes_lem test zero (suc bar) within passed = absurd (omega arith)
passes_lem test (suc top) bar within passed = elim (Bool-cases (bar == suc top)) [
  | inl here ↦ rw ((==_iff _ _).0 here) (ground arith)
  | inr lower ↦ passes_lem test top bar (ground arith) (ground arith)
]

-- a control word for the BAR's number `r`
abbrev word : ℕ → Bool → ℕ
word r inc = bit_or (bit_or ctrl_v (r * 2 ^ 16)) (if inc then ctrl_inc else 0)

-- what is tested of it
abbrev good : Bool → ℕ → Bool
good inc r =
    not (is_last (uint (word r inc)))
    && is_last (uint (bit_or (word r inc) ctrl_last))
    && not (is_last (uint (first_word (word r inc) false)))
    && is_last (uint (first_word (word r inc) true))

all_good : (inc : Bool) → passes (good inc) 7 ≡ true
unfolding passes first_word
all_good true = refl
all_good false = refl

-- Of the words that are built for a transfer, those with CTRL_LAST have the bit set, and no others.
pub is_last-control_word :
    (bar : ℕ) (inc : Bool)
    → (is_last (uint (control_word bar inc)) ≡ false)
      × (is_last (uint (bit_or (control_word bar inc) ctrl_last)) ≡ true)
      × (is_last (uint (first_word (control_word bar inc) false)) ≡ false)
      × (is_last (uint (first_word (control_word bar inc) true)) ≡ true)
unfolding control_word
is_last-control_word bar inc =
    let tested = passes_lem (good inc) 7 (bar % 8) (omega arith) (all_good inc) in
    rw (bit_and-mask 3 bar) (ground arith)
