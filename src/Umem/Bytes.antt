-- ===== src/Umem/Bytes.antt =====
-- What a scatter/gather list stands for: bus addresses, byte by byte.
use fpga_pcie_drivers.Common.{
  ℕ, zero, suc, ◌+◌, ◌^◌, ◌<◌, ◌≡◌, ◌≢◌, refl, sym, ◌∙◌, ap, ap₂, List, [], ◌∷◌, ◌++◌, arith, All,
  Bool-cases, inl, inr, ◌==◌, ==_iff,
}
use Prim.Native.Nat.add
use mathlib.Core.List.{append_assoc}
use fpga_pcie_drivers.Device.{SgEntry, ulong}
use fpga_pcie_drivers.Umem.Merge.{coalesce, grown, coalesce-grow, coalesce-skip, coalesce-next}

-- `n` bus addresses from `a` on, in 64-bit arithmetic
unfoldable pub run : ℕ → ℕ → List ℕ
run a zero = []
run a (suc n) = a ∷ run (ulong (a + 1)) n

-- the bytes of a list, entry by entry
abbrev pub bytes : List SgEntry → List ℕ
bytes [] = []
bytes (e ∷ es) = run e.addr e.size ++ bytes es

abbrev pub total : List SgEntry → ℕ
total [] = 0
total (e ∷ es) = e.size + total es

run-add : (a m n : ℕ) → a < 2 ^ 64 → run a (m + n) ≡ run a m ++ run (ulong (a + m)) n
unfolding run
run-add a zero n h = ap₂ run {x = a} (omega arith) (omega arith)
run-add a (suc m) n h = rw (add.suc) (
    ap (λ xs. a ∷ xs)
      (run-add (ulong (a + 1)) m n (omega arith)
        ∙ ap (λ b. run (ulong (a + 1)) m ++ run b n) (omega arith)))

pub run-none : (a n : ℕ) → n ≡ 0 → run a n ≡ []
unfolding run
run-none a zero h = refl
run-none a (suc n) h = absurd (omega arith)

-- Bus addresses are 64 bits wide.
abbrev pub IsBus : SgEntry → Type 0
IsBus e = e.addr < 2 ^ 64

-- Merging keeps the bytes and their order, if no length passes 64 bits.
pub bytes-coalesce :
    (cur : SgEntry) (es : List SgEntry)
    → All IsBus (cur ∷ es)
    → total (cur ∷ es) < 2 ^ 64
    → bytes (coalesce cur es) ≡ bytes (cur ∷ es)
bytes-coalesce cur [] bus small = unfold coalesce in refl
bytes-coalesce cur (e ∷ es) bus small = elim (Bool-cases (e.addr == ulong (cur.addr + cur.size))) [
  | inl fits ↦
      let exact : ulong (cur.size + e.size) ≡ cur.size + e.size = omega arith in
      rw (coalesce-grow cur e es fits) (
        bytes-coalesce (grown cur e) es (bus.0, bus.1.1) (omega arith)
        ∙ ap (λ n. run cur.addr n ++ bytes es) exact
        ∙ ap (λ xs. xs ++ bytes es)
            (run-add cur.addr cur.size e.size bus.0
              ∙ ap (λ a. run cur.addr cur.size ++ run a e.size) (sym ((==_iff _ _).0 fits)))
        ∙ append_assoc (run cur.addr cur.size) (run e.addr e.size) (bytes es))
  | inr apart ↦ elim (Bool-cases (e.size == 0)) [
    | inl empty ↦ rw (coalesce-skip cur e es apart empty) (
        bytes-coalesce cur es (bus.0, bus.1.1) (omega arith)
        ∙ ap (λ xs. run cur.addr cur.size ++ (xs ++ bytes es))
            (sym (run-none e.addr e.size ((==_iff _ _).0 empty))))
    | inr more ↦
        rw (coalesce-next cur e es apart more)
          (ap (λ xs. run cur.addr cur.size ++ xs) (bytes-coalesce e es bus.1 (omega arith)))
  ]
]

-- No entry begins where the one before it ends.
abbrev pub IsApart : List SgEntry → Type 0
IsApart [] = Unit
IsApart (x ∷ []) = Unit
IsApart (x ∷ y ∷ es) = (y.addr ≢ ulong (x.addr + x.size)) × IsApart (y ∷ es)

first_addr :
    (cur : SgEntry) (es : List SgEntry)
    → (e : SgEntry) × (rest : List SgEntry) × (coalesce cur es ≡ e ∷ rest) × (e.addr ≡ cur.addr)
first_addr cur [] = (cur, [], unfold coalesce in refl, refl)
first_addr cur (e ∷ es) = elim (Bool-cases (e.addr == ulong (cur.addr + cur.size))) [
  | inl fits ↦ rw (coalesce-grow cur e es fits) (first_addr (grown cur e) es)
  | inr apart ↦ elim (Bool-cases (e.size == 0)) [
    | inl empty ↦ rw (coalesce-skip cur e es apart empty) (first_addr cur es)
    | inr more ↦ rw (coalesce-next cur e es apart more) (cur, coalesce e es, refl, refl)
  ]
]

-- A merged list cannot be merged further: no entry begins where the one before it ends.
pub coalesce-IsApart : (cur : SgEntry) (es : List SgEntry) → IsApart (coalesce cur es)
coalesce-IsApart cur [] = unfold coalesce in tt
coalesce-IsApart cur (e ∷ es) = elim (Bool-cases (e.addr == ulong (cur.addr + cur.size))) [
  | inl fits ↦ rw (coalesce-grow cur e es fits) (coalesce-IsApart (grown cur e) es)
  | inr apart ↦ elim (Bool-cases (e.size == 0)) [
    | inl empty ↦ rw (coalesce-skip cur e es apart empty) (coalesce-IsApart cur es)
    | inr more ↦
        let (first, rest, shape, same) = first_addr e es in
        let ih : IsApart (first ∷ rest) = rw shape at (coalesce-IsApart e es) in
        rw (coalesce-next cur e es apart more, shape) (ground arith, ih)
  ]
]
