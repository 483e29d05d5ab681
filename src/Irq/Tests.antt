-- ===== src/Irq/Tests.antt =====
-- The interrupt handler and the waiting threads at concrete boards and channels.
use fpga_pcie_drivers.Common.{
  ◌+◌, ◌-◌, ◌≤◌, ◌≡◌, refl, true, false, none, ◌⊎◌, List, some, [], ◌∷◌, arith, ltb, if◌then◌else◌,
  replicate,
}
use fpga_pcie_drivers.Kernel.{Event}
use fpga_pcie_drivers.Device.{Privdata, PciDev}
use fpga_pcie_drivers.Irq.Handler.{Registers, irq_handler}
use fpga_pcie_drivers.Irq.Handled.{delivered, reads_null, irq_handler-pending}
use fpga_pcie_drivers.Irq.Wait.{Channel, interrupt, enter, try, put_back, clear}
use fpga_pcie_drivers.Irq.Waiters.{
  Reach, next, here, idle, interrupts, enters, tries, puts_back, waiters_earned, waiters_not_lost,
  clear_race,
}

abbrev board : PciDev
board = record { vendor = 0x10dc; device = 0x0153; bus = 1; devfn = 8; irq = 11; bars = [] }

abbrev device : Privdata
device = record {
  devno = 0;
  pdev = board;
  mmap_mode = 0;
  mmap_area = 0;
  irq_enabled = true;
  irq_count = 5;
  irq_outstanding = replicate 16 0;
  bars_kmapped = some 0x1000 ∷ [];
  kmem_list = [];
  kmem_count = 0;
  umem_list = [];
  umem_count = 0;
}

-- The interrupts of channel 1 and of the generator are pending.
abbrev both : Registers
both = record { stat = λ round. 5; enable = 7 }

abbrev quiet : Registers
quiet = record { stat = λ round. 8; enable = 7 }

irq_handler-pending_example :
    ((reads_null device ≡ true) × (irq_handler both device ≡ none))
    ⊎ ((reads_null device ≡ false)
        × ((calls : List Event) × (irq_handler both device
              ≡ some (true, delivered (some 1) device, calls))))
irq_handler-pending_example = irq_handler-pending both device 5 (λ round. refl)

-- A thread waits too early and owes its increment.
abbrev early : Channel
early = record { counter = 4294967295; interrupts = 0; waiting = 0; owing = 1; returned = 0 }

-- The interrupt comes while it does, and it has gone round the loop.
abbrev woken : Channel
woken = record { counter = 1; interrupts = 1; waiting = 1; owing = 0; returned = 0 }

Reach-early : Reach idle early
unfolding enter try
Reach-early = next (next here enters) (tries (omega arith))

Reach-woken : Reach idle woken
unfolding interrupt put_back
Reach-woken = next (next Reach-early interrupts) (puts_back (omega arith))

abbrev served : Channel
served = record { counter = 0; interrupts = 1; waiting = 0; owing = 0; returned = 1 }

Reach-served : Reach idle served
unfolding try
Reach-served = next Reach-woken (tries (omega arith))

waiters_earned_example : served.returned ≤ served.interrupts
waiters_earned_example = waiters_earned Reach-served (omega arith) (omega arith)

waiters_not_lost_example :
    (woken.counter ≡ woken.interrupts - woken.returned)
    × ((try woken).returned
        ≡ woken.returned + (if ltb woken.returned woken.interrupts then 1 else 0))
waiters_not_lost_example = waiters_not_lost Reach-woken (omega arith) (omega arith) refl

-- The counter is cleared while a thread owes its increment, which comes after that; then the thread's test.
abbrev raced : Channel
raced = try (put_back (clear early))

Reach-raced : Reach (clear early) raced
unfolding clear put_back
Reach-raced = next (next here (puts_back (omega arith))) (tries (omega arith))

clear_race_example :
    (early.returned ≤ raced.returned)
    × (raced.returned - early.returned ≤ early.owing + (raced.interrupts - early.interrupts))
    × (raced.counter
        ≡ early.owing + (raced.interrupts - early.interrupts) - (raced.returned - early.returned))
unfolding try put_back clear
clear_race_example = clear_race early Reach-raced (omega arith) (omega arith) refl
