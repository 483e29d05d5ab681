-- ===== src/Creotech/Transfers.antt =====
-- Where the transfers of a stream go.
use fpga_pcie_drivers.Common.{
  ℕ, zero, suc, ◌+◌, ◌*◌, ◌^◌, ◌≤◌, ◌<◌, ◌≡◌, ◌∙◌, inl, inr, refl, sym, ap, Bool, true, false, some,
  List, [], ◌∷◌, ◌++◌, ◌==◌, arith, if◌then◌else◌, get_elem?, length, Bool-cases, ltb,
}
use mathlib.Core.List.{append_assoc}
use fpga_pcie_drivers.Kernel.{Action, Event, acquire, release, act, write_reg}
use fpga_pcie_drivers.Device.{ulong, uint}
use fpga_pcie_drivers.Creotech.Card.{Card, reg_wdmatlpa, half, run_dma}
use fpga_pcie_drivers.Creotech.Stream.{StreamAnswer, transfer_size, rounds, dma_loop, transfers}

-- the bus addresses that a trace tells the card to write to, in order
abbrev pub target : Action → List ℕ
target (write_reg register value) = if register == reg_wdmatlpa then value ∷ [] else []
target a = []

abbrev pub targets : List Event → List ℕ
targets [] = []
targets (act a ∷ es) = target a ++ targets es
targets (acquire r ∷ es) = targets es
targets (release r ∷ es) = targets es

pub targets-append : (es fs : List Event) → targets (es ++ fs) ≡ targets es ++ targets fs
targets-append [] fs = refl
targets-append (act a ∷ es) fs =
    ap (λ l. target a ++ l) (targets-append es fs)
    ∙ sym (append_assoc (target a) (targets es) (targets fs))
targets-append (acquire r ∷ es) fs = targets-append es fs
targets-append (release r ∷ es) fs = targets-append es fs

-- the first address of the half that the card is on
abbrev pub base : Card → ℕ
base c = c.buffer_hw_addr + half c.even_buffer

targets-run_dma :
    (s : Bool) (offset mapped : ℕ) (c : Card)
    → (targets (run_dma s offset mapped c).1 ≡ uint (base c + offset) ∷ [])
      × (base (run_dma s offset mapped c).0 ≡ base c)
unfolding run_dma
targets-run_dma s offset mapped c = (ap (λ v. v ∷ []) (omega arith), refl)

dma_loop-base :
    (k : StreamAnswer) (size n i offset : ℕ) (c : Card)
    → base (dma_loop k size n i offset c).0 ≡ base c
unfolding dma_loop run_dma
dma_loop-base k size zero i offset c = refl
dma_loop-base k size (suc n) i offset c = dma_loop-base k size n (i + 1) _ _

dma_loop-offset :
    (k : StreamAnswer) (size n i offset : ℕ) (c : Card)
    → offset < 2 ^ 64
    → (dma_loop k size n i offset c).1 ≡ ulong (offset + n * size)
unfolding dma_loop
dma_loop-offset k size zero i offset c h = omega arith
dma_loop-offset k size (suc n) i offset c h =
    dma_loop-offset k size n (i + 1) (ulong (offset + size)) _ (omega arith) ∙ omega arith

targets-dma_loop :
    (k : StreamAnswer) (size n i offset : ℕ) (c : Card)
    → targets (dma_loop k size (suc n) i offset c).2
      ≡ uint (base c + offset)
        ∷ targets
            (dma_loop k size n
              (i + 1)
              (ulong (offset + size))
              (run_dma false offset (k.mapped i) c).0).2
unfolding dma_loop
targets-dma_loop k size n i offset c =
    let first = targets-run_dma false offset (k.mapped i) c in
    let rest =
      (dma_loop k size n (i + 1) (ulong (offset + size))
        (run_dma false offset (k.mapped i) c).0).2 in
    targets-append (run_dma false offset (k.mapped i) c).1 rest
    ∙ ap (λ xs. xs ++ targets rest) first.0

length-dma_loop :
    (k : StreamAnswer) (size n i offset : ℕ) (c : Card)
    → length (targets (dma_loop k size n i offset c).2) ≡ n
length-dma_loop k size zero i offset c = unfold dma_loop in refl
length-dma_loop k size (suc n) i offset c =
    rw (targets-dma_loop k size n i offset c) (ap suc (length-dma_loop k size n (i + 1) _ _))

loop-target :
    (k : StreamAnswer) (size n i offset j : ℕ) (c : Card)
    → j < n
    → get_elem? (targets (dma_loop k size n i offset c).2) j
      ≡ some (uint (base c + offset + j * size))
loop-target k size zero i offset j c h = absurd (omega arith)
loop-target k size (suc n) i offset zero c h =
    rw (targets-dma_loop k size n i offset c) (ap some (omega arith))
loop-target k size (suc n) i offset (suc j) c h =
    let same = (targets-run_dma false offset (k.mapped i) c).1 in
    rw (targets-dma_loop k size n i offset c) (
      loop-target k size n (i + 1) (ulong (offset + size)) j _ (omega arith)
      ∙ rw same (ap some (omega arith)))

get-append_lt : (xs ys : List ℕ) (j : ℕ) → j < length xs → get_elem? (xs ++ ys) j ≡ get_elem? xs j
get-append_lt [] ys j h = absurd (omega arith)
get-append_lt (x ∷ xs) ys zero h = refl
get-append_lt (x ∷ xs) ys (suc j) h = get-append_lt xs ys j (omega arith)

get-snoc_end : (xs : List ℕ) (y j : ℕ) → j ≡ length xs → get_elem? (xs ++ y ∷ []) j ≡ some y
get-snoc_end [] y zero h = refl
get-snoc_end [] y (suc j) h = absurd (omega arith)
get-snoc_end (x ∷ xs) y zero h = absurd (omega arith)
get-snoc_end (x ∷ xs) y (suc j) h = get-snoc_end xs y j (omega arith)

length-snoc : (xs : List ℕ) (y : ℕ) → length (xs ++ y ∷ []) ≡ length xs + 1
length-snoc [] y = refl
length-snoc (x ∷ xs) y = omega (arith, length-snoc xs y)

-- the transfers of the loop, and the last one
abbrev loop : StreamAnswer → Card → Card × ℕ × List Event
loop k c = dma_loop k (transfer_size c) (rounds c) 0 0 (record c { wake = false })

transfers-snoc :
    (k : StreamAnswer) (c : Card)
    → targets (transfers k c).1
      ≡ targets (loop k c).2 ++ uint (base c + rounds c * transfer_size c) ∷ []
unfolding transfers
transfers-snoc k c =
    let (last, offset, calls) = loop k c in
    let final =
      run_dma true offset (k.mapped (rounds c)) (record last { dma_done = false; wake = true }) in
    let same : base last ≡ base c =
      dma_loop-base k (transfer_size c) (rounds c) 0 0 (record c { wake = false }) in
    let reached : offset ≡ ulong (rounds c * transfer_size c) =
      dma_loop-offset k (transfer_size c) (rounds c) 0 0 (record c { wake = false }) (omega arith)
      ∙ omega arith in
    let goes =
      (targets-run_dma true offset (k.mapped (rounds c))
        (record last { dma_done = false; wake = true })).0 in
    let cut : uint (base last + offset) ≡ uint (base c + rounds c * transfer_size c) =
      omega arith in
    targets-append calls final.1 ∙ ap (λ ys. targets calls ++ ys) (goes ∙ ap (λ v. v ∷ []) cut)

-- Transfer number `j` of a stream goes to the start of the half that the card is on, plus `j` times
-- the size of a transfer, cut to 32 bits. There is one transfer more than rounds of the loop.
pub transfers-target :
    (k : StreamAnswer) (c : Card) (j : ℕ)
    → j ≤ rounds c
    → (get_elem? (targets (transfers k c).1) j ≡ some (uint (base c + j * transfer_size c)))
      × (length (targets (transfers k c).1) ≡ rounds c + 1)
transfers-target k c j h =
    let first = targets (loop k c).2 in
    let many : length first ≡ rounds c =
      length-dma_loop k (transfer_size c) (rounds c) 0 0 (record c { wake = false }) in
    let cut : uint (base c + 0 + j * transfer_size c) ≡ uint (base c + j * transfer_size c) =
      omega arith in
    rw (transfers-snoc k c) (
      elim (Bool-cases (ltb j (rounds c))) [
        | inl more ↦
            get-append_lt first _ j (ground arith)
            ∙ loop-target k (transfer_size c) (rounds c) 0 0 j (record c { wake = false })
                (ground arith)
            ∙ ap some cut
        | inr last ↦
            let end : j ≡ rounds c = ground arith in
            rw end (get-snoc_end first _ (rounds c) (sym many))
      ],
      length-snoc first _ ∙ ap (λ n. n + 1) many,
    )
