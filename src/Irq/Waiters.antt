-- ===== src/Irq/Waiters.antt =====
-- All interleavings of the threads that wait on a channel with the interrupt handler.
use fpga_pcie_drivers.Common.{ℕ, ◌+◌, ◌-◌, ◌^◌, ◌<◌, ◌≤◌, ◌≡◌, if◌then◌else◌, arith, ltb}
use fpga_pcie_drivers.Device.{uint}
use fpga_pcie_drivers.Irq.Wait.{Channel, interrupt, enter, try, put_back, clear}

-- One atomic operation, by any of the threads or by the handler; nobody clears the counter.
pub data Step (c : Channel) : Channel → Type 0 where
  interrupts : Step c (interrupt c)
  enters : Step c (enter c)
  tries : 0 < c.waiting → Step c (try c)
  puts_back : 0 < c.owing → Step c (put_back c)

pub data Reach (c : Channel) : Channel → Type 0 where
  here : Reach c c
  next : {d e : Channel} → Reach c d → Step d e → Reach c e

abbrev pub idle : Channel
idle = record { counter = 0; interrupts = 0; waiting = 0; owing = 0; returned = 0 }

-- The counter is the interrupts less those that were waited for and those that are owed, in 32-bit
-- arithmetic.
pub record Balances (c : Channel) : Type 0 where
  pub word : c.counter < 2 ^ 32
  pub sum : uint (c.counter + c.returned + c.owing) ≡ uint c.interrupts

Step-Balances : {c d : Channel} → Step c d → Balances c → Balances d
unfolding interrupt enter try put_back
Step-Balances interrupts b = omega arith
Step-Balances enters b = omega arith
Step-Balances (tries w) b = ground arith
Step-Balances (puts_back o) b = omega arith

Reach-Balances : {c d : Channel} → Reach c d → Balances c → Balances d
Reach-Balances here b = b
Reach-Balances (next r s) b = Step-Balances s (Reach-Balances r b)

-- How many threads have entered the loop so far.
abbrev pub threads : Channel → ℕ
threads c = c.waiting + c.owing + c.returned

Step-grows : {c d : Channel} → Step c d → (c.interrupts ≤ d.interrupts) × (threads c ≤ threads d)
unfolding interrupt enter try put_back
Step-grows interrupts = omega arith
Step-grows enters = omega arith
Step-grows (tries w) = ground arith
Step-grows (puts_back o) = omega arith

Step-earned :
    {c d : Channel}
    → Step c d
    → Balances c
    → c.interrupts < 2 ^ 31
    → threads c < 2 ^ 31
    → c.returned ≤ c.interrupts
    → d.returned ≤ d.interrupts
unfolding interrupt enter try put_back
Step-earned interrupts b i t h = omega arith
Step-earned enters b i t h = omega arith
Step-earned (tries w) b i t h = ground arith
Step-earned (puts_back o) b i t h = omega arith

-- In every interleaving of interrupts and waiting threads, starting from a channel at rest, no more
-- threads have returned from `ioctl_wait_interrupt` than there were interrupts, as long as there
-- were fewer than 2^31 of each.
pub waiters_earned :
    {c : Channel}
    → Reach idle c
    → c.interrupts < 2 ^ 31
    → threads c < 2 ^ 31
    → c.returned ≤ c.interrupts
waiters_earned here i t = omega arith
waiters_earned (next r s) i t =
    let grows = Step-grows s in
    Step-earned s (Reach-Balances r (omega arith)) (omega arith) (omega arith)
      (waiters_earned r (omega arith) (omega arith))

-- In every interleaving of interrupts and waiting threads, starting from a channel at rest, with fewer
-- than 2^31 of each, no interrupt is lost: when no thread owes an increment, the counter is the number of
-- interrupts that nobody has returned for, and a waiting thread's next test succeeds exactly if there
-- is one.
pub waiters_not_lost :
    {c : Channel}
    → Reach idle c
    → c.interrupts < 2 ^ 31
    → threads c < 2 ^ 31
    → c.owing ≡ 0
    → (c.counter ≡ c.interrupts - c.returned)
      × ((try c).returned ≡ c.returned + (if ltb c.returned c.interrupts then 1 else 0))
unfolding try
waiters_not_lost {c} r i t none_owed =
    let b = Reach-Balances r (omega arith) in
    let e = waiters_earned r i t in
    let exact : c.counter ≡ c.interrupts - c.returned = omega arith in (exact, ground arith)

-- What holds of a channel from the time on when the counter was cleared, the channel being `c` then: the
-- increments that were owed count like interrupts.
record Cleared (c d : Channel) : Type 0 where
  word : d.counter < 2 ^ 32
  later : (c.interrupts ≤ d.interrupts) × (c.returned ≤ d.returned)
  sum :
      uint (d.counter + (d.returned - c.returned) + d.owing)
      ≡ uint (c.owing + (d.interrupts - c.interrupts))

Step-Cleared : {c d e : Channel} → Step d e → Cleared c d → Cleared c e
unfolding interrupt enter try put_back
Step-Cleared interrupts b = record {
  word = omega (arith, b.word);
  later = omega (arith, b.later);
  sum = omega (arith, b.later, b.sum);
}
Step-Cleared enters b = record { word = b.word; later = b.later; sum = b.sum }
Step-Cleared (tries w) b = record {
  word = ground (arith, b.word);
  later = ground (arith, b.later);
  sum = ground (arith, b.word, b.later, b.sum);
}
Step-Cleared (puts_back o) b = record {
  word = omega (arith, b.word);
  later = b.later;
  sum = omega (arith, b.later, b.sum);
}

Reach-Cleared : {c d : Channel} → Reach (clear c) d → Cleared c d
unfolding clear
Reach-Cleared here = record { word = omega arith; later = omega arith; sum = omega arith }
Reach-Cleared (next r s) = Step-Cleared s (Reach-Cleared r)

Step-surplus :
    {c d e : Channel}
    → Step d e
    → Cleared c d
    → c.owing + d.interrupts < 2 ^ 31
    → threads d < 2 ^ 31
    → d.returned - c.returned ≤ c.owing + (d.interrupts - c.interrupts)
    → e.returned - c.returned ≤ c.owing + (e.interrupts - c.interrupts)
unfolding interrupt enter try put_back
Step-surplus interrupts b i t h = omega (arith, b.later)
Step-surplus enters b i t h = omega arith
Step-surplus (tries w) b i t h = ground (arith, b.word, b.later, b.sum)
Step-surplus (puts_back o) b i t h = omega arith

cleared_earned :
    (c : Channel) {d : Channel}
    → Reach (clear c) d
    → c.owing + d.interrupts < 2 ^ 31
    → threads d < 2 ^ 31
    → d.returned - c.returned ≤ c.owing + (d.interrupts - c.interrupts)
unfolding clear
cleared_earned c here i t = omega arith
cleared_earned c (next r s) i t =
    let grows = Step-grows s in
    Step-surplus {c = c} s (Reach-Cleared r) (omega (arith, grows)) (omega (arith, grows))
      (cleared_earned c r (omega (arith, grows)) (omega (arith, grows)))

-- `ioctl_clear_ioq` clears the counter while threads owe an increment each. Then, after every interleaving
-- that follows, with fewer than 2^31 interrupts and threads, and at whose end no thread owes an increment
-- any more: at most as many threads have returned since as there were interrupts since the clearing and
-- increments owed at it; and the counter is what is left of both. So each increment that was owed
-- counts as an interrupt out of nothing.
pub clear_race :
    (c : Channel) {d : Channel}
    → Reach (clear c) d
    → c.owing + d.interrupts < 2 ^ 31
    → threads d < 2 ^ 31
    → d.owing ≡ 0
    → (c.returned ≤ d.returned)
      × (d.returned - c.returned ≤ c.owing + (d.interrupts - c.interrupts))
      × (d.counter ≡ c.owing + (d.interrupts - c.interrupts) - (d.returned - c.returned))
clear_race c r i t none_owed =
    let b : Cleared c _ = Reach-Cleared r in
    let e = cleared_earned c r i t in (b.later.1, e, omega (arith, b.word, b.later, b.sum))
