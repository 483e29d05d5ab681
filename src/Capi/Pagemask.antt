-- ===== src/Capi/Pagemask.antt =====
-- `pd_getpagemask` of pciDriver_Capi.c: the page's mask by a loop that ends at 1.
use fpga_pcie_drivers.Common.{
  ℕ, zero, suc, ◌+◌, ◌-◌, ◌*◌, ◌/◌, ◌%◌, ◌^◌, ◌≤◌, ◌<◌, ◌≡◌, ◌∙◌, refl, sym, ap, false, Option,
  none, some, arith, ◌==◌, if◌then◌else◌,
}
use Prim.Native.Nat.{bit_and, bit_and-bitwise, digits, min, two}
use native.Mathlib.Nat.{
  pow-succ', one-le-pow, pow-le-pow_right, zero-mod, mul-add-mod_self_left, div-add-mod, mod-lt,
  mod-eq_of_lt,
}
use fpga_pcie_drivers.Device.{uint}

-- `for (pagemask=0, temp=pagesize; temp != 1;)` with `temp` and `pagemask` as they are, on fuel: none if
-- the loop has not ended.
unfoldable pub pagemask_loop : ℕ → ℕ → ℕ → Option ℕ
pagemask_loop zero temp pagemask = none
pagemask_loop (suc fuel) temp pagemask =
    let rest = pagemask_loop fuel (temp / 2) (uint (pagemask * 2 + 1)) in
    if temp == 1 then some pagemask else rest

-- `pd_getpagemask`, with the page size as getpagesize returns it; 32 rounds are enough for an `int`.
unfoldable pub pd_getpagemask : ℕ → Option ℕ
pd_getpagemask pagesize = pagemask_loop 32 pagesize 0

-- From a mask of `j` ones on, `k` more rounds.
loop_mask :
    (k j fuel temp : ℕ)
    → 2 ^ k ≤ temp
    → temp < 2 ^ (k + 1)
    → k < fuel
    → j + k ≤ 32
    → pagemask_loop fuel temp (2 ^ j - 1) ≡ some (2 ^ (j + k) - 1)
unfolding pagemask_loop
loop_mask k j zero temp low high enough small = absurd (omega arith)
loop_mask zero j (suc fuel) temp low high enough small =
    let one_left : temp ≡ 1 = omega arith in rw one_left (ap (λ i. some (2 ^ i - 1)) (omega arith))
loop_mask (suc k) j (suc fuel) temp low high enough small =
    let more : 2 ^ suc k ≡ 2 * 2 ^ k = pow-succ' 2 k in
    let top : 2 ^ (suc k + 1) ≡ 2 * 2 ^ (k + 1) =
      ap (λ i. 2 ^ i) (omega arith) ∙ pow-succ' 2 (k + 1) in
    let digit : 2 ^ suc j ≡ 2 * 2 ^ j = pow-succ' 2 j in
    let positive : 1 ≤ 2 ^ j = one-le-pow j 2 (omega arith) in
    let positive_k : 1 ≤ 2 ^ k = one-le-pow k 2 (omega arith) in
    let bounded : 2 ^ suc j ≤ 2 ^ 32 =
      pow-le-pow_right {n = 2} (omega arith) {i = suc j} {j = 32} (omega arith) in
    let next : uint ((2 ^ j - 1) * 2 + 1) ≡ 2 ^ suc j - 1 =
      omega (arith, digit, positive, bounded) in
    let test : (temp == 1) ≡ false = ground (arith, low, more, positive_k) in
    let rest =
      loop_mask k (suc j) fuel (temp / 2) (omega (arith, low, more)) (omega (arith, high, top))
        (omega arith) (omega arith) in
    rw (test, next) (rest ∙ ap (λ i. some (2 ^ i - 1)) (omega arith))

-- For every positive `int` the loop ends, with the mask of as many ones as the size has digits after
-- its first one.
pub pd_getpagemask-ends :
    (pagesize k : ℕ)
    → 2 ^ k ≤ pagesize
    → pagesize < 2 ^ (k + 1)
    → k ≤ 30
    → pd_getpagemask pagesize ≡ some (2 ^ k - 1)
unfolding pd_getpagemask
pd_getpagemask-ends pagesize k low high small =
    loop_mask k 0 32 pagesize low high (omega arith) (omega arith)
    ∙ ap (λ i. some (2 ^ i - 1)) (omega arith)

-- It does not end on 0.
pub zero-runs : (fuel pagemask : ℕ) → pagemask_loop fuel 0 pagemask ≡ none
unfolding pagemask_loop
zero-runs zero pagemask = refl
zero-runs (suc fuel) pagemask = ground (arith, zero-runs fuel (uint (pagemask * 2 + 1)))

-- the last digit and the others
mod_double : (n m : ℕ) → 1 ≤ m → n % (2 * m) ≡ n / 2 % m * 2 + n % 2
mod_double n m positive =
    let low = n / 2 % m * 2 + n % 2 in
    let outer : m * (n / 2 / m) + n / 2 % m ≡ n / 2 = div-add-mod (n / 2) m in
    let small : n / 2 % m < m = mod-lt (n / 2) positive in
    let whole : n ≡ 2 * m * (n / 2 / m) + low = omega (arith, outer) in
    ap (λ x. x % (2 * m)) whole
    ∙ mul-add-mod_self_left (2 * m) (n / 2 / m) low
    ∙ mod-eq_of_lt {n = low} {m = 2 * m} (omega arith)

digits_mask : (k n a : ℕ) → a ≤ n → digits (λ b. zero) min n a (2 ^ k - 1) ≡ a % 2 ^ k
digits_mask k zero a h = let nothing : a ≡ 0 = omega arith in rw nothing (sym (zero-mod (2 ^ k)))
digits_mask k (suc n) zero h = sym (zero-mod (2 ^ k))
digits_mask zero (suc n) (suc a) h =
    let above : digits (λ b. zero) min n (suc a / two) 0 ≡ suc a / two % 1 =
      digits_mask zero n (suc a / two) (omega arith) in
    omega (arith, above)
digits_mask (suc k) (suc n) (suc a) h =
    let more : 2 ^ suc k ≡ 2 * 2 ^ k = pow-succ' 2 k in
    let positive : 1 ≤ 2 ^ k = one-le-pow k 2 (omega arith) in
    let shifted : (2 ^ suc k - 1) / two ≡ 2 ^ k - 1 = omega (arith, more, positive) in
    let odd : (2 ^ suc k - 1) % two ≡ 1 = omega (arith, more, positive) in
    let above = digits_mask k n (suc a / two) (omega arith) in
    let last : min (suc a % two) 1 ≡ suc a % two = omega arith in
    rw (shifted, odd, above, last, more) (sym (mod_double (suc a) (2 ^ k) positive))

-- The bits of a mask of `k` ones are the remainder by 2 ^ k.
pub bit_and-mask : (k a : ℕ) → bit_and a (2 ^ k - 1) ≡ a % 2 ^ k
bit_and-mask k a = bit_and-bitwise a (2 ^ k - 1) ∙ digits_mask k a a (omega arith)

-- The loop of `pd_getpagemask` ends for every positive `int`, within 32 rounds. If the size has `k`
-- binary digits after its first one, the bits of the mask are the remainder by 2 ^ k: for a size that
-- is a power of two, the offset in the page.
pub bit_and-pd_getpagemask :
    (pagesize k a : ℕ)
    → 2 ^ k ≤ pagesize
    → pagesize < 2 ^ (k + 1)
    → k ≤ 30
    → (mask : ℕ) × (pd_getpagemask pagesize ≡ some mask) × (bit_and a mask ≡ a % 2 ^ k)
bit_and-pd_getpagemask pagesize k a low high small =
    (2 ^ k - 1, pd_getpagemask-ends pagesize k low high small, bit_and-mask k a)
