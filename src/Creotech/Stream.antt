-- ===== src/Creotech/Stream.antt =====
-- `fpga_char_ioctl` and `fpga_irq_handler` of pcie.c: data is streamed into the two halves of the
-- buffer in turn.
use fpga_pcie_drivers.Common.{
  ℕ, zero, suc, ◌+◌, ◌-◌, ◌*◌, ◌%◌, ◌^◌, Bool, true, false, Option, none, some, List, [], ◌∷◌, ◌++◌,
  ltb, if◌then◌else◌,
}
use fpga_pcie_drivers.Kernel.{
  Status, ok, err, eio, efault, einval, enotty, Event, release, act, fill, dma_mapping, wake_up,
}
use fpga_pcie_drivers.Device.{ulong, uint}
use fpga_pcie_drivers.Umem.Pages.{lt_int}
use fpga_pcie_drivers.Creotech.Card.{Card, buf_size, half, fpga_init_device, run_dma}

-- How a wait for `dma_done` ends: the interrupt came, the ten milliseconds passed, or a signal came.
pub data Wait : Type 0 where
  arrived timeout signal : Wait

-- What an ioctl gets: the address that each pci_map_single returns; how its first wait ends; whether
-- the interrupt ends the second one, which has no timeout, or a signal; and whether the `int` can be
-- copied to user space.
pub record StreamAnswer : Type 0 where
  pub mapped : ℕ → ℕ
  pub wait : Wait
  pub second : Bool
  pub writable : Bool

-- `fpga_irq_handler`
unfoldable pub fpga_irq_handler : Card → Card × List Event
fpga_irq_handler c = (
  record c { dma_done = true },
  release (dma_mapping (ulong (c.dma_addr + half c.even_buffer + c.offset)) buf_size)
      ∷ (if c.wake then act (wake_up 0) ∷ [] else []),
)

-- `4*tlp_size*tlp_count`, an `int`, as a dma_addr_t
unfoldable pub transfer_size : Card → ℕ
transfer_size c =
    let size = uint (4 * c.tlp_size * c.tlp_count) in
    if ltb size (2 ^ 31) then size else size + (2 ^ 64 - 2 ^ 32)

-- how often the loop `for (i = 0; i < dma_count - 1; i++)` runs
abbrev pub rounds : Card → ℕ
rounds c = if lt_int 0 c.dma_count then c.dma_count - 1 else 0

-- the loop from round `i` on, with `n` rounds left: the card, the offset, and the calls
unfoldable pub dma_loop : StreamAnswer → ℕ → ℕ → ℕ → ℕ → Card → Card × ℕ × List Event
dma_loop k size zero i offset c = (c, offset, [])
dma_loop k size (suc n) i offset c =
    let (started, calls) = run_dma false offset (k.mapped i) c in
    let (last, end, rest) = dma_loop k size n (i + 1) (ulong (offset + size)) started in
    (last, end, calls ++ rest)

-- the transfers of START_STREAM and NEXT_STREAM, from the loop on; the last one interrupts
unfoldable pub transfers : StreamAnswer → Card → Card × List Event
transfers k c =
    let quiet = record c { wake = false } in
    let (last, offset, calls) = dma_loop k (transfer_size c) (rounds c) 0 0 quiet in
    let (end, more) =
      run_dma true offset (k.mapped (rounds c)) (record last { dma_done = false; wake = true }) in
    (end, calls ++ more)

-- The `long` that an ioctl returns, the `int` that it writes to user space, the card, and the calls.
abbrev pub Answer : Type 0
Answer = Status × Option ℕ × Card × List Event

-- START_STREAM
unfoldable pub start_stream : StreamAnswer → Card → Answer
start_stream k c =
    let (end, calls) = transfers k (record c { even_buffer = true; pattern = 0x2a2a2a2a }) in
    (ok, none, end, calls)

-- a wait for `dma_done`: the card and the calls after it; the handler runs if the interrupt comes
abbrev pub waited : Wait → Card → Card × List Event
waited arrived c = fpga_irq_handler c
waited timeout c = (c, [])
waited signal c = (c, [])

-- `if (!dma_done) { wait; if (i == 0) { ret = -EIO; break; } }`: none if it times out
unfoldable pub await : Wait → Card → Option (Card × List Event)
await w c = if c.dma_done then some (c, []) else elim w [
  | timeout ↦ none
  | arrived ↦ some (waited arrived c)
  | signal ↦ some (waited signal c)
]

-- the half that the user gets, and the card on the other half
abbrev pub swap : Card → ℕ × Card
swap c = (half c.even_buffer, record c { even_buffer = if c.even_buffer then false else true })

-- `copy_to_user` of the offset, and `break`
abbrev pub hand_out : StreamAnswer → ℕ → Card → List Event → Answer
hand_out k offset c calls =
    if k.writable then (ok, some offset, c, calls) else (err efault, none, c, calls)

-- NEXT_STREAM
unfoldable pub next_stream : StreamAnswer → Card → Answer
next_stream k c = elim (await k.wait c) [
  | none ↦ (err eio, none, c, [])
  | some (finished, calls) ↦
      let (offset, other) = swap finished in
      let (end, more) =
        transfers k
          (record other { pattern = if finished.even_buffer then 0x2b2b2b2b else 0x2c2c2c2c }) in
      hand_out k offset end (calls ++ more)
]

-- END_STREAM
unfoldable pub end_stream : StreamAnswer → Card → Answer
end_stream k c = elim (await k.wait c) [
  | none ↦ (err eio, none, c, [])
  | some (finished, calls) ↦
      let (last, more) =
        (if finished.dma_done
          then (finished, [])
          else if k.second
          then fpga_irq_handler finished
          else (finished, [])) in
      let (offset, other) = swap last in hand_out k offset other (calls ++ more)
]

-- The commands of pcie_ioctl.h with their arguments: of SET_TLPSIZE and SET_TLPCOUNT, the `int` that
-- the pointer points to, and of SET_TLPCOUNT the pointer, too.
pub data Command : Type 0 where
  cmd_reset_card cmd_start_stream cmd_next_stream cmd_end_stream : Command
  cmd_set_dmacount cmd_set_tlpsize cmd_memset_writebuffer : ℕ → Command
  cmd_set_tlpcount : ℕ → ℕ → Command
  cmd_unknown : Command

-- MEMSET_WRITEBUFFER
abbrev pub memset_buffer : ℕ → Card → Answer
memset_buffer arg c = (ok, none, c, act (fill c.buffer (arg % 256) (buf_size * 2)) ∷ [])

-- `fpga_char_ioctl`; SET_TLPCOUNT falls through to MEMSET_WRITEBUFFER.
unfoldable pub fpga_char_ioctl : StreamAnswer → Card → Command → Answer
fpga_char_ioctl k c cmd_reset_card = (ok, none, c, fpga_init_device c)
fpga_char_ioctl k c cmd_start_stream = start_stream k c
fpga_char_ioctl k c cmd_next_stream = next_stream k c
fpga_char_ioctl k c cmd_end_stream = end_stream k c
fpga_char_ioctl k c (cmd_set_dmacount arg) = (ok, none, record c { dma_count = uint arg }, [])
fpga_char_ioctl k c (cmd_set_tlpsize value) =
    if lt_int 32 value
    then (err einval, none, c, [])
    else (ok, none, record c { tlp_size = value }, [])
fpga_char_ioctl k c (cmd_set_tlpcount arg value) =
    if lt_int 128 value
    then (err einval, none, c, [])
    else memset_buffer arg (record c { tlp_count = value })
fpga_char_ioctl k c (cmd_memset_writebuffer arg) = memset_buffer arg c
fpga_char_ioctl k c cmd_unknown = (err enotty, none, c, [])
