-- ===== src/Mprace/Pieces.antt =====
-- What the descriptors of a list stand for: pieces of the buffer, byte by byte; and a part of them.
use fpga_pcie_drivers.Common.{
  ℕ, zero, suc, ◌+◌, ◌-◌, ◌^◌, ◌≤◌, ◌<◌, ◌≡◌, ◌∙◌, refl, sym, ap, ap₂, List, [], ◌∷◌, ◌++◌, arith,
  leb, Bool-cases, inl, inr, if◌then◌else◌, take, drop,
}
use mathlib.Core.List.{append-nil}
use fpga_pcie_drivers.Device.{SgEntry, ulong}
use fpga_pcie_drivers.Umem.Bytes.{bytes, total, run}
use fpga_pcie_drivers.Mprace.Descriptor.{Descriptor, host_address}
use fpga_pcie_drivers.Mprace.Send.{DescriptorList}

abbrev pub piece : Descriptor → SgEntry
piece d = record { addr = host_address d; size = d.length }

-- the pieces of `n` descriptors from index `i` on
abbrev pub pieces : ℕ → DescriptorList → ℕ → List SgEntry
pieces zero l i = []
pieces (suc n) l i = piece (l.at i) ∷ pieces n l (i + 1)

-- `count` bytes of `n` descriptors from index `i` on, without the first `skip` bytes
unfoldable pub cut : ℕ → DescriptorList → ℕ → ℕ → ℕ → List SgEntry
cut zero l i skip count = []
cut (suc n) l i skip count =
    let d = l.at i in
    let start = ulong (host_address d + skip) in
    let rest = cut n l (i + 1) 0 (count - (d.length - skip)) in
    if leb count (d.length - skip)
    then record { addr = start; size = count } ∷ []
    else record { addr = start; size = d.length - skip } ∷ rest

take-run : (m n a : ℕ) → m ≤ n → take m (run a n) ≡ run a m
unfolding run
take-run zero n a h = refl
take-run (suc m) zero a h = absurd (omega arith)
take-run (suc m) (suc n) a h = ap (λ xs. a ∷ xs) (take-run m n (ulong (a + 1)) (omega arith))

drop-run : (m n a : ℕ) → m ≤ n → a < 2 ^ 64 → drop m (run a n) ≡ run (ulong (a + m)) (n - m)
unfolding run
drop-run zero n a h bus = ap₂ run {x = a} (omega arith) (omega arith)
drop-run (suc m) zero a h bus = absurd (omega arith)
drop-run (suc m) (suc n) a h bus =
    drop-run m n (ulong (a + 1)) (omega arith) (omega arith)
    ∙ ap₂ run {x = ulong (ulong (a + 1) + m)} (omega arith) (omega arith)

-- a list of `n` elements in front of another
drop-front : (a n k : ℕ) (ys : List ℕ) → k ≤ n → drop k (run a n ++ ys) ≡ drop k (run a n) ++ ys
unfolding run
drop-front a n zero ys h = refl
drop-front a zero (suc k) ys h = absurd (omega arith)
drop-front a (suc n) (suc k) ys h = drop-front (ulong (a + 1)) n k ys (omega arith)

pub drop-behind : (a n k : ℕ) (ys : List ℕ) → n ≤ k → drop k (run a n ++ ys) ≡ drop (k - n) ys
unfolding run
drop-behind a zero k ys h = ap (λ m. drop m ys) (omega arith)
drop-behind a (suc n) zero ys h = absurd (omega arith)
drop-behind a (suc n) (suc k) ys h =
    drop-behind (ulong (a + 1)) n k ys (omega arith) ∙ ap (λ m. drop m ys) (omega arith)

take-front : (a n k : ℕ) (ys : List ℕ) → k ≤ n → take k (run a n ++ ys) ≡ run a k
unfolding run
take-front a n zero ys h = refl
take-front a zero (suc k) ys h = absurd (omega arith)
take-front a (suc n) (suc k) ys h =
    ap (λ xs. a ∷ xs) (take-front (ulong (a + 1)) n k ys (omega arith))

take-behind :
    (a n k : ℕ) (ys : List ℕ) → n ≤ k → take k (run a n ++ ys) ≡ run a n ++ take (k - n) ys
unfolding run
take-behind a zero k ys h = ap (λ m. take m ys) (omega arith)
take-behind a (suc n) zero ys h = absurd (omega arith)
take-behind a (suc n) (suc k) ys h =
    ap (λ xs. a ∷ xs)
      (take-behind (ulong (a + 1)) n k ys (omega arith)
        ∙ ap (λ m. run (ulong (a + 1)) n ++ take m ys) (omega arith))

-- The pieces that are cut out stand for the bytes that are asked for.
pub bytes-cut :
    (n : ℕ) (l : DescriptorList) (i skip count : ℕ)
    → (0 < n → skip ≤ (l.at i).length)
    → skip + count ≤ total (pieces n l i)
    → bytes (cut n l i skip count) ≡ take count (drop skip (bytes (pieces n l i)))
unfolding cut
bytes-cut zero l i skip count within room = let e : count ≡ 0 = omega arith in rw e refl
bytes-cut (suc n) l i skip count within room =
    let d = l.at i in
    let h = within (omega arith) in
    let bus : host_address d < 2 ^ 64 = omega arith in
    let front =
      drop-front (host_address d) d.length skip (bytes (pieces n l (i + 1))) h
      ∙ ap (λ xs. xs ++ bytes (pieces n l (i + 1)))
          (drop-run skip d.length (host_address d) h bus) in
    elim (Bool-cases (leb count (d.length - skip))) [
      | inl fits ↦
          rw (fits, front)
            (append-nil (run (ulong (host_address d + skip)) count)
              ∙ sym (
                  take-front (ulong (host_address d + skip)) (d.length - skip) count
                    (bytes (pieces n l (i + 1))) (ground arith)))
      | inr more ↦
          rw (more, front)
            (ap (λ xs. run (ulong (host_address d + skip)) (d.length - skip) ++ xs)
                (bytes-cut n l (i + 1) 0 (count - (d.length - skip)) (λ p. omega arith)
                  (ground arith))
              ∙ sym (
                  take-behind (ulong (host_address d + skip)) (d.length - skip) count
                    (bytes (pieces n l (i + 1))) (ground arith)))
    ]
