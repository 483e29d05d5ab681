-- ===== src/Irq/Wait.antt =====
-- `ioctl_wait_interrupt` and `ioctl_clear_ioq` of ioctl.c, down to the atomic operations on the
-- channel's counter, which other threads and the interrupt handler may interrupt anywhere.
use fpga_pcie_drivers.Common.{ℕ, ◌+◌, ◌-◌, ◌^◌, Bool, leb, if◌then◌else◌}
use fpga_pcie_drivers.Device.{uint}

-- `atomic_add_negative(-1, &counter)`: the new counter, and whether it is negative
unfoldable pub add_negative : ℕ → ℕ × Bool
add_negative counter = let less = uint (counter + (2 ^ 32 - 1)) in (less, leb (2 ^ 31) less)

-- `atomic_inc(&counter)`
unfoldable pub atomic_inc : ℕ → ℕ
atomic_inc counter = uint (counter + 1)

-- A channel: its counter, the interrupts that the handler has counted, and the threads inside
-- `ioctl_wait_interrupt`: how many are before the decrement, how many have found a negative counter
-- and owe the increment, and how many have left the loop.
pub record Channel : Type 0 where
  pub counter : ℕ
  pub interrupts : ℕ
  pub waiting : ℕ
  pub owing : ℕ
  pub returned : ℕ

-- the handler, `atomic_inc(&(privdata->irq_outstanding[channel]))`
unfoldable pub interrupt : Channel → Channel
unfolding atomic_inc
interrupt c = record c { counter = atomic_inc c.counter; interrupts = c.interrupts + 1 }

-- a thread enters the loop
unfoldable pub enter : Channel → Channel
enter c = record c { waiting = c.waiting + 1 }

-- the test of the loop, by one waiting thread
unfoldable pub try : Channel → Channel
unfolding add_negative
try c =
    let (less, negative) = add_negative c.counter in
    if negative
    then record c { counter = less; waiting = c.waiting - 1; owing = c.owing + 1 }
    else record c { counter = less; waiting = c.waiting - 1; returned = c.returned + 1 }

-- the increment after a failed test; the thread goes round the loop
unfoldable pub put_back : Channel → Channel
unfolding atomic_inc
put_back c = record c {
  counter = atomic_inc c.counter;
  owing = c.owing - 1;
  waiting = c.waiting + 1;
}

-- `ioctl_clear_ioq`, `atomic_set(&(privdata->irq_outstanding[irq_source]), 0)`
unfoldable pub clear : Channel → Channel
clear c = record c { counter = 0 }
