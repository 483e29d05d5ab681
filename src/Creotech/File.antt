-- ===== src/Creotech/File.antt =====
-- The file operations of pcie.c: `fpga_char_open`, `fpga_char_release`, `fpga_char_mmap`,
-- `fpga_char_read` and `fpga_char_write`.
use fpga_pcie_drivers.Common.{
  ℕ, ◌+◌, ◌*◌, ◌-◌, ◌/◌, ◌^◌, ◌≡◌, ◌⊎◌, inl, inr, refl, sym, ap, ◌∙◌, Bool, true, false, Option,
  none, some, List, [], ◌∷◌, ◌++◌, ◌==◌, arith, if◌then◌else◌, Option-cases, Bool-cases, is_some,
  ◌||◌, ◌&&◌,
}
use fpga_pcie_drivers.Kernel.{
  Status, ok, err, ebusy, eagain, Event, acquire, release, act, module_ref, remap_pfn_range, copy,
}
use fpga_pcie_drivers.Device.{ulong, uint, page_size}
use fpga_pcie_drivers.Creotech.Card.{
  Card, write, reg_dcsr, reg_ddmacr, reg_wdmatlpa, reg_wdmatlps, reg_wdmatlpc, reg_wdmatlpp,
  reg_rdmatlpp, reg_rdmatlpa, reg_rdmatlps, reg_rdmatlpc, bit_init, bit_initreset, bit_wdmastart,
  bit_rdmastart,
}
use fpga_pcie_drivers.Creotech.Stream.{fpga_irq_handler}

-- `fpga_char_open`, on Device_Open; `live` is the answer of try_module_get, which is not looked at.
unfoldable pub fpga_char_open : Bool → ℕ → Status × ℕ × List Event
fpga_char_open live count =
    if count == 0
    then (ok, uint (count + 1), if live then acquire module_ref ∷ [] else [])
    else (err ebusy, count, [])

-- `fpga_char_release`
unfoldable pub fpga_char_release : ℕ → Status × ℕ × List Event
fpga_char_release count = (ok, uint (count + (2 ^ 32 - 1)), release module_ref ∷ [])

-- `fpga_char_mmap`; `remapped` is the answer of the kernel.
unfoldable pub fpga_char_mmap : Bool → Card → ℕ → ℕ → Status × List Event
fpga_char_mmap remapped c vm_start vm_end =
    let call =
      remap_pfn_range vm_start (c.buffer_hw_addr / page_size)
        (ulong (vm_end + 2 ^ 64 - vm_start)) in
    (if remapped then ok else err eagain, act call ∷ [])

-- What comes to the process and the card while the process sleeps: the card's interrupt, or a signal.
pub data Arrival : Type 0 where
  interrupt signal : Arrival

-- When the card's interrupts are handled: `early` is one between the start of the DMA and
-- `dma_done=false`, `between` one after that and before the wait tests `dma_done`, and `asleep` is what
-- comes after that, in order.
pub record Interrupts : Type 0 where
  pub early : Bool
  pub between : Bool
  pub asleep : List Arrival

-- an interrupt, or none
abbrev pub interrupted : Bool → Card → Card × List Event
interrupted true c = fpga_irq_handler c
interrupted false c = (c, [])

-- calls before those of a wait
abbrev pub after : List Event → Option (Card × List Event) → Option (Card × List Event)
after calls none = none
after calls (some (end, more)) = some (end, calls ++ more)

-- The sleep of wait_event_interruptible: the handler wakes the process only if `wake` is set, and then the
-- process tests `dma_done`; a signal ends the sleep. None if the process still sleeps.
unfoldable pub sleep : List Arrival → Card → Option (Card × List Event)
sleep [] c = none
sleep (signal ∷ arrivals) c = some (c, [])
sleep (interrupt ∷ arrivals) c =
    let (handled, calls) = fpga_irq_handler c in
    let later = sleep arrivals handled in
    if c.wake && handled.dma_done then some (handled, calls) else after calls later

-- the end of a read and a write: `dma_done=false`, and wait_event_interruptible
unfoldable pub finish : Interrupts → Card → Option (Card × List Event)
finish k c =
    let (started, calls) = interrupted k.early c in
    let (tested, more) = interrupted k.between (record started { dma_done = false }) in
    if tested.dma_done
    then some (tested, calls ++ more)
    else after (calls ++ more) (sleep k.asleep tested)

-- `tlp_size*tlp_count*sizeof(char)`, with the function's own 32 and 128
abbrev pub chunk : ℕ
chunk = 32 * 128

-- the calls of `fpga_char_read` up to the start of the DMA
abbrev pub read_start : Card → List Event
read_start c =
    write reg_dcsr bit_initreset
    ∷ write reg_dcsr bit_init
    ∷ write reg_wdmatlpc c.tlp_count
    ∷ write reg_wdmatlps c.tlp_size
    ∷ write reg_wdmatlpp 0x2a2b2c2d
    ∷ write reg_wdmatlpa c.buffer_hw_addr
    ∷ write reg_ddmacr bit_wdmastart
    ∷ []

-- `fpga_char_read`: the `ssize_t`, the card and the calls, or none if it waits forever.
unfoldable pub fpga_char_read : Interrupts → Card → ℕ → Option (ℕ × Card × List Event)
fpga_char_read k c count = elim (finish k c) [
  | none ↦ none
  | some (end, calls) ↦ some (chunk, end, read_start c ++ calls ++ act (copy c.buffer chunk) ∷ [])
]

-- the calls of `fpga_char_write` up to the start of the DMA
abbrev pub write_start : Card → List Event
write_start c =
    act (copy c.buffer chunk)
    ∷ write reg_dcsr bit_initreset
    ∷ write reg_dcsr bit_init
    ∷ write reg_rdmatlpc c.tlp_count
    ∷ write reg_rdmatlps c.tlp_size
    ∷ write reg_rdmatlpp 0x2a2b2c2d
    ∷ write reg_rdmatlpa c.buffer_hw_addr
    ∷ write reg_ddmacr bit_rdmastart
    ∷ []

-- `fpga_char_write`
unfoldable pub fpga_char_write : Interrupts → Card → ℕ → Option (ℕ × Card × List Event)
fpga_char_write k c len = elim (finish k c) [
  | none ↦ none
  | some (end, calls) ↦ some (chunk, end, write_start c ++ calls)
]

is_some-after :
    (calls : List Event) (o : Option (Card × List Event)) → is_some (after calls o) ≡ is_some o
is_some-after calls none = refl
is_some-after calls (some (end, more)) = refl

-- whether a sleep comes to an end, if interrupts wake the process or not
abbrev pub ends_sleep : Bool → List Arrival → Bool
ends_sleep wake [] = false
ends_sleep wake (signal ∷ arrivals) = true
ends_sleep wake (interrupt ∷ arrivals) = wake || ends_sleep wake arrivals

sleep-ends_sleep :
    (arrivals : List Arrival) (c : Card) → is_some (sleep arrivals c) ≡ ends_sleep c.wake arrivals
unfolding sleep fpga_irq_handler
sleep-ends_sleep [] c = refl
sleep-ends_sleep (signal ∷ arrivals) c = refl
sleep-ends_sleep (interrupt ∷ arrivals) c =
    let rest = sleep-ends_sleep arrivals (record c { dma_done = true }) in
    elim (Bool-cases c.wake) [
      | inl wakes ↦ rw wakes refl
      | inr sleeps ↦
          let calls = (fpga_irq_handler c).1 in
          let later = sleep arrivals (record c { dma_done = true }) in
          let asleep : is_some (sleep (interrupt ∷ arrivals) c) ≡ is_some (after calls later) =
            rw (sleep, sleeps) refl in
          asleep
          ∙ is_some-after calls later
          ∙ rest
          ∙ ap (λ w. w || ends_sleep c.wake arrivals) (sym sleeps)
    ]

finish-ends_sleep :
    (k : Interrupts) (c : Card) → is_some (finish k c) ≡ (k.between || ends_sleep c.wake k.asleep)
finish-ends_sleep k c =
    let (started, calls) = interrupted k.early c in
    let cleared = record started { dma_done = false } in
    let same : started.wake ≡ c.wake = unfold fpga_irq_handler in ground arith in
    elim (Bool-cases k.between) [
      | inl comes ↦ unfold finish fpga_irq_handler in rw comes refl
      | inr none_comes ↦
          let waits : is_some (finish k c)
              ≡ is_some (after (calls ++ []) (sleep k.asleep cleared)) =
            unfold finish in rw none_comes refl in
          waits
          ∙ is_some-after (calls ++ []) (sleep k.asleep cleared)
          ∙ sleep-ends_sleep k.asleep cleared
          ∙ rw (same, none_comes) refl
    ]

-- A read and a write end alike: exactly if an interrupt comes after `dma_done` has been cleared and before the
-- wait tests it; or a signal comes later; or an interrupt does and `wake` is set, as only START_STREAM
-- and NEXT_STREAM set it. So an interrupt between the start of the DMA and the clearing is lost, and on
-- a card without a stream so is one that comes during the sleep. If they end they return 4096 whatever
-- size the caller asks for; the buffer is copied out last and filled first.
pub fpga_char_read-fpga_char_write :
    (k : Interrupts) (c : Card) (count : ℕ)
    → (((k.between || ends_sleep c.wake k.asleep) ≡ false)
        × (fpga_char_read k c count ≡ none)
        × (fpga_char_write k c count ≡ none))
      ⊎ (((k.between || ends_sleep c.wake k.asleep) ≡ true)
          × ((d : Card) × (calls : List Event) × (fpga_char_read k c count
                ≡ some (4096, d, read_start c ++ calls ++ act (copy c.buffer 4096) ∷ []))
              × (fpga_char_write k c count ≡ some (4096, d, write_start c ++ calls))))
unfolding fpga_char_read fpga_char_write
fpga_char_read-fpga_char_write k c count =
    let e = finish-ends_sleep k c in
    elim (Option-cases (finish k c)) [
      | inl stuck ↦
          inl (
            sym e ∙ rw stuck refl,
            rw (fpga_char_read, stuck) refl,
            rw (fpga_char_write, stuck) refl,
          )
      | inr ((d, calls), ends) ↦ inr (
        sym e ∙ rw ends refl,
        (d, calls, rw (fpga_char_read, ends) refl, rw (fpga_char_write, ends) refl),
      )
    ]
