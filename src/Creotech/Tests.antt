-- ===== src/Creotech/Tests.antt =====
-- The second driver at a concrete card.
use fpga_pcie_drivers.Common.{
  ℕ, ◌+◌, ◌*◌, ◌≤◌, ◌≡◌, ◌⊎◌, inl, refl, Bool, true, false, some, none, List, [], ◌∷◌, ◌++◌, arith,
  count, one, get_elem?, length,
}
use fpga_pcie_drivers.Kernel.{ok, Resource, Event, act, copy, acquired, released, dma_buffer}
use fpga_pcie_drivers.Creotech.Card.{Card, buf_size, run_dma}
use fpga_pcie_drivers.Creotech.Probe.{
  ProbeAnswer, request_regions, fpga_probe, fpga_probe_regions, fpga_probe_irq, fpga_probe_buffer,
  fpga_remove,
}
use fpga_pcie_drivers.Creotech.Undo.{fpga_probe_fails_balanced, fpga_remove-fpga_probe}
use fpga_pcie_drivers.Creotech.Stream.{
  rounds, StreamAnswer, arrived, signal, transfer_size, await, transfers, dma_loop, next_stream,
}
use fpga_pcie_drivers.Creotech.Transfers.{targets}
use fpga_pcie_drivers.Creotech.Halves.{next_stream_lem, next_stream_apart}
use fpga_pcie_drivers.Creotech.File.{
  Interrupts, interrupt, ends_sleep, fpga_char_read, fpga_char_write, read_start, write_start,
  fpga_char_read-fpga_char_write,
}

-- two transfers of 4096 bytes each; the first half is being filled
abbrev card : Card
card = record {
  base_start = 0xf0000000;
  base_len = 0x1000;
  region = some 0x5000;
  irq = 16;
  buffer = 0x100000;
  even_buffer = true;
  buffer_hw_addr = 0x200000;
  offset = 0;
  dma_addr = 0;
  dma_done = false;
  tlp_size = 32;
  tlp_count = 32;
  dma_count = 2;
  wake = true;
  pattern = 0;
}

abbrev answer : StreamAnswer
answer = record { mapped = λ i. 0x200000; wait = arrived; second = true; writable = true }

next_ok : (next_stream answer card).0 ≡ ok
unfolding next_stream await transfers dma_loop transfer_size run_dma
next_ok = refl

next_stream_lem_example :
    ((next_stream answer card).1 ≡ some 0)
    × ((false ≡ true) ⊎ (arrived ≡ arrived) ⊎ (arrived ≡ signal))
next_stream_lem_example = next_stream_lem answer card next_ok

-- The second transfer goes behind the first, in the other half.
next_stream_apart_example :
    (length (targets (next_stream answer card).3) ≡ rounds card + 1)
    × ((v : ℕ) × (get_elem? (targets (next_stream answer card).3) 1 ≡ some v)
        × (0x200000 ≤ v)
        × (v + 4096 ≤ 0x200000 + 2 * buf_size)
        × ((v + 4096 ≤ 0x200000) ⊎ (0x200000 + buf_size ≤ v)))
unfolding transfer_size
next_stream_apart_example =
    next_stream_apart answer card next_ok 1 (omega arith) (unfold transfer_size in omega arith)
      (omega arith)

abbrev granted : ProbeAnswer
granted = record {
  enabled = true;
  bars = 0 ∷ 2 ∷ [];
  start = 0xf0000000;
  last = 0xf0000fff;
  requested = true;
  remap = some 0x5000;
  msi = true;
  irq = 16;
  irq_requested = true;
  mask_set = true;
  dma_requested = true;
  buffer = some (0x100000, 0x200000);
  registered = true;
}

-- a card with one BAR, and no buffer for it
abbrev exhausted : ProbeAnswer
exhausted = record granted { bars = 0 ∷ []; buffer = none }

abbrev any : Resource → Bool
any r = true

granted_ok : (fpga_probe granted card).0 ≡ ok
unfolding fpga_probe fpga_probe_regions fpga_probe_irq fpga_probe_buffer
granted_ok = refl

fpga_remove-fpga_probe_example :
    let d = (fpga_probe granted card).1 in
    (released (fpga_probe granted card).2 ≡ [])
    × (count any (acquired (fpga_probe granted card).2)
          + one any (dma_buffer buf_size 0x100000 0x200000)
        ≡ count any (released (fpga_remove true 16 d))
          + one any (dma_buffer (2 * buf_size) 0x100000 0x200000)
          + count any (acquired (request_regions (2 ∷ []))))
unfolding fpga_probe fpga_probe_regions fpga_probe_irq fpga_probe_buffer
fpga_remove-fpga_probe_example = fpga_remove-fpga_probe any granted card (2 ∷ []) granted_ok refl

fpga_probe_fails_balanced_example :
    count any (released (fpga_probe exhausted card).2)
    ≡ count any (acquired (fpga_probe exhausted card).2)
fpga_probe_fails_balanced_example =
    fpga_probe_fails_balanced any exhausted card
      (unfold fpga_probe fpga_probe_regions fpga_probe_irq fpga_probe_buffer in refl) refl
      (inl refl) refl

-- An interrupt comes before `dma_done` is cleared, and one while the process sleeps.
abbrev lost : Interrupts
lost = record { early = true; between = false; asleep = interrupt ∷ [] }

fpga_char_read-fpga_char_write_example :
    ((ends_sleep card.wake (interrupt ∷ []) ≡ false)
      × (fpga_char_read lost card 100 ≡ none)
      × (fpga_char_write lost card 100 ≡ none))
    ⊎ ((ends_sleep card.wake (interrupt ∷ []) ≡ true)
        × ((d : Card) × (calls : List Event) × (fpga_char_read lost card 100
              ≡ some (4096, d, read_start card ++ calls ++ act (copy 0x100000 4096) ∷ []))
            × (fpga_char_write lost card 100 ≡ some (4096, d, write_start card ++ calls))))
fpga_char_read-fpga_char_write_example = fpga_char_read-fpga_char_write lost card 100
