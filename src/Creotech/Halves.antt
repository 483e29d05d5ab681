-- ===== src/Creotech/Halves.antt =====
-- NEXT_STREAM and END_STREAM: which half of the buffer the user gets, and which one the card fills.
use fpga_pcie_drivers.Common.{
  ℕ, ◌+◌, ◌*◌, ◌^◌, ◌≤◌, ◌<◌, ◌≡◌, ◌⊎◌, ◌∙◌, inl, inr, refl, ap, true, false, not, some, List, [],
  ◌++◌, arith, if◌then◌else◌, get_elem?, length, Bool-cases, Option-cases,
}
use mathlib.Core.Path.{subst}
use native.Mathlib.Nat.{mul-le-mul_right}
use fpga_pcie_drivers.Kernel.{ok, Event}
use fpga_pcie_drivers.Device.{uint}
use fpga_pcie_drivers.Creotech.Card.{Card, buf_size, half}
use fpga_pcie_drivers.Creotech.Stream.{
  Wait, arrived, timeout, signal, StreamAnswer, fpga_irq_handler, transfer_size, rounds, transfers,
  next_stream, await,
}
use fpga_pcie_drivers.Creotech.Transfers.{targets, targets-append, base, transfers-target}

-- The end of a wait that did not time out: the card is as it was, or the handler has run.
record Ended (w : Wait) (c : Card) (out : Card × List Event) : Type 0 where
  even : out.0.even_buffer ≡ c.even_buffer
  address : out.0.buffer_hw_addr ≡ c.buffer_hw_addr
  size : transfer_size out.0 ≡ transfer_size c
  count : out.0.dma_count ≡ c.dma_count
  quiet : targets out.1 ≡ []
  completed : (c.dma_done ≡ true) ⊎ (w ≡ arrived) ⊎ (w ≡ signal)

handler-Ended : (c : Card) → Ended arrived c (fpga_irq_handler c)
unfolding fpga_irq_handler transfer_size
handler-Ended c = record {
  even = refl;
  address = refl;
  size = refl;
  count = refl;
  quiet = ground arith;
  completed = inr (inl refl);
}

still-Ended :
    (w : Wait) (c : Card) → (c.dma_done ≡ true) ⊎ (w ≡ arrived) ⊎ (w ≡ signal) → Ended w c (c, [])
still-Ended w c h = record {
  even = refl;
  address = refl;
  size = refl;
  count = refl;
  quiet = refl;
  completed = h;
}

await-Ended : (w : Wait) (c : Card) (out : Card × List Event) → await w c ≡ some out → Ended w c out
unfolding await
await-Ended w c out e = elim (Bool-cases c.dma_done) [
  | inl done ↦
      let same : (c, []) ≡ out = ground arith in subst (Ended w c) same (still-Ended w c (inl done))
  | inr running ↦ waiting w e running
]
  where
    waiting : (v : Wait) → await v c ≡ some out → c.dma_done ≡ false → Ended v c out
    waiting arrived f r =
        let same : fpga_irq_handler c ≡ out = ground arith in
        subst (Ended arrived c) same (handler-Ended c)
    waiting timeout f r = absurd (ground arith)
    waiting signal f r =
        let same : (c, []) ≡ out = ground arith in
        subst (Ended signal c) same (still-Ended signal c (inr (inr refl)))

-- the card that NEXT_STREAM starts on, from the one that it has waited for
abbrev turned : Card → Card
turned c = record c {
  even_buffer = if c.even_buffer then false else true;
  pattern = if c.even_buffer then 0x2b2b2b2b else 0x2c2c2c2c;
}

turned-size : (c : Card) → transfer_size (turned c) ≡ transfer_size c
unfolding transfer_size
turned-size c = refl

turned-base :
    (d c : Card)
    → d.even_buffer ≡ c.even_buffer
    → d.buffer_hw_addr ≡ c.buffer_hw_addr
    → base (turned d) ≡ c.buffer_hw_addr + half (not c.even_buffer)
turned-base d c even address = ground arith

next-awaited :
    (k : StreamAnswer) (c : Card)
    → (next_stream k c).0 ≡ ok
    → (out : Card × List Event) × (await k.wait c ≡ some out)
      × (next_stream k c ≡ (
        ok,
        some (half out.0.even_buffer),
        (transfers k (turned out.0)).0,
        out.1 ++ (transfers k (turned out.0)).1,
      ))
unfolding next_stream
next-awaited k c good = elim (Option-cases (await k.wait c)) [
  | inl e ↦ absurd (ground arith)
  | inr (out, e) ↦ (out, e, ground arith)
]

module _ (k : StreamAnswer) (c : Card) (good : (next_stream k c).0 ≡ ok) where
  next-target :
      (j : ℕ)
      → j ≤ rounds c
      → get_elem? (targets (next_stream k c).3) j
        ≡ some (uint (c.buffer_hw_addr + half (not c.even_buffer) + j * transfer_size c))
  next-target j h =
      let (out, e, whole) = next-awaited k c good in
      let w = await-Ended k.wait c out e in
      let same : rounds (turned out.0) ≡ rounds c = rw w.count refl in
      let reach : j ≤ rounds (turned out.0) = rw same h in
      let goes = (transfers-target k (turned out.0) j reach).0 in
      let start : base (turned out.0) ≡ c.buffer_hw_addr + half (not c.even_buffer) =
        turned-base out.0 c w.even w.address in
      let size : transfer_size (turned out.0) ≡ transfer_size c = turned-size out.0 ∙ w.size in
      rw (whole, targets-append, w.quiet, goes, start, size) refl

  next-length : length (targets (next_stream k c).3) ≡ rounds c + 1
  next-length =
      let (out, e, whole) = next-awaited k c good in
      let w = await-Ended k.wait c out e in
      let same : rounds (turned out.0) ≡ rounds c = rw w.count refl in
      let many = (transfers-target k (turned out.0) 0 (omega arith)).1 in
      rw (whole, targets-append, w.quiet) (many ∙ ap (λ n. n + 1) same)

  -- If NEXT_STREAM returns 0 it hands out the half that the card was on, after its transfers have
  -- signalled, or after a signal to the process has ended the wait for it.
  pub next_stream_lem :
      ((next_stream k c).1 ≡ some (half c.even_buffer))
      × ((c.dma_done ≡ true) ⊎ (k.wait ≡ arrived) ⊎ (k.wait ≡ signal))
  next_stream_lem =
      let (out, e, whole) = next-awaited k c good in
      let w = await-Ended k.wait c out e in rw (whole, w.even) (refl, w.completed)

  -- NEXT_STREAM returns 0, and the buffer lies below 4 GB and the half is long enough for all
  -- transfers. Then it starts one transfer more than the rounds of its loop, and none besides; and the half
  -- that it hands out is left alone: each of them lies within the buffer, and before or behind that half.
  pub next_stream_apart :
      (j : ℕ)
      → c.buffer_hw_addr + 2 * buf_size ≤ 2 ^ 32
      → (rounds c + 1) * transfer_size c ≤ buf_size
      → j ≤ rounds c
      → (length (targets (next_stream k c).3) ≡ rounds c + 1)
        × ((v : ℕ) × (get_elem? (targets (next_stream k c).3) j ≡ some v)
            × (c.buffer_hw_addr ≤ v)
            × (v + transfer_size c ≤ c.buffer_hw_addr + 2 * buf_size)
            × ((v + transfer_size c ≤ c.buffer_hw_addr + half c.even_buffer)
                ⊎ (c.buffer_hw_addr + half c.even_buffer + buf_size ≤ v)))
  next_stream_apart j low fits h =
      let v = c.buffer_hw_addr + half (not c.even_buffer) + j * transfer_size c in
      let room : j * transfer_size c + transfer_size c ≤ (rounds c + 1) * transfer_size c =
        omega (arith, mul-le-mul_right (transfer_size c) h) in
      let small : uint v ≡ v = ground arith in
      (next-length, (v, next-target j h ∙ ap some small, ground arith, ground arith, ground arith))

-- With transfers of the largest size that SET_TLPSIZE and SET_TLPCOUNT take and more than one of
-- them, which SET_DMACOUNT takes, the second and all later transfers into the upper half go past the
-- end of the buffer.
pub transfers_overrun :
    (k : StreamAnswer) (c : Card) (j : ℕ)
    → c.tlp_size ≡ 32
    → c.tlp_count ≡ 128
    → c.even_buffer ≡ false
    → 1 ≤ j
    → j ≤ rounds c
    → c.buffer_hw_addr + buf_size + j * 16384 < 2 ^ 32
    → (v : ℕ) × (get_elem? (targets (transfers k c).1) j ≡ some v)
      × (c.buffer_hw_addr + 2 * buf_size ≤ v)
transfers_overrun k c j size count upper more h low =
    let whole : transfer_size c ≡ 16384 = unfold transfer_size in rw (size, count) refl in
    let goes = (transfers-target k c j h).0 in
    (
      c.buffer_hw_addr + buf_size + j * 16384,
      rw whole at goes ∙ ap some (ground arith),
      omega arith,
    )
