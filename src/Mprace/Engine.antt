-- ===== src/Mprace/Engine.antt =====
-- DMAEngineWG.cpp: the registers of a channel, and transfers in both directions.
use fpga_pcie_drivers.Common.{
  ℕ, ◌+◌, ◌*◌, ◌/◌, Bool, true, false, not, ◌&&◌, ◌||◌, none, some, List, [], ◌∷◌, ◌++◌, ltb, ◌==◌,
  if◌then◌else◌,
}
use Prim.Native.Nat.{bit_and, bit_or}
use fpga_pcie_drivers.Device.{uint, ulong}
use fpga_pcie_drivers.Cpp.Device.{
  Exception, not_open as device_not_open, interrupt_failed as device_interrupt_failed,
  wait_for_interrupt,
}
use fpga_pcie_drivers.Cpp.Buffer.{KernelMemory}
use fpga_pcie_drivers.Cpp.Mapping.{sync_user_memory}
use fpga_pcie_drivers.Mprace.Descriptor.{
  Descriptor, set_host, set_peripheral, set_next, set_length, set_control, ctrl_reset, ctrl_inc,
  ctrl_upa, ctrl_last, ctrl_v, ctrl_edi, ctrl_bar,
}
use fpga_pcie_drivers.Mprace.Send.{prepare, restore_saved_data}
use fpga_pcie_drivers.Mprace.Machine.{
  Error, interrupt_failed, not_open, address_out_of_range, empty_transfer, dma_timeout, below,
  Memory, kernel, kernel_pieces, user, DmaBuffer, store, enable, sleep, Engine, Action, raise, gets,
  ◌>>=◌, ◌>>◌, skip, when, access, change_engine, ended, sync, both, to_device, from_device, ok,
  err,
}

-- the entry of a table by address or number, changed
abbrev pub put : {A : Type 0} → ℕ → A → (ℕ → A) → ℕ → A
put i v f j = if j == i then v else f j

-- `DMAStatus`, from the channel's status register
pub data Status : Type 0 where
  idle busy error timeout : Status

unfoldable pub get_status : ℕ → Status
get_status word =
    if not (bit_and word 2 == 0) && not (bit_and word 1 == 0)
    then error
    else if not (bit_and word 2 == 0)
    then busy
    else if not (bit_and word 0x10 == 0)
    then timeout
    else idle

-- the condition on which waiting ends
abbrev pub is_over : Status → Bool
is_over idle = true
is_over timeout = true
is_over busy = false
is_over error = false

-- `reset`
abbrev pub reset : ℕ → Action (Unit {0})
reset ch = access (store ch 7 (bit_or ctrl_reset ctrl_v))

-- `write`
unfoldable pub write : ℕ → Descriptor → Action (Unit {0})
write ch d m = some (
  ok tt,
  record m {
    trace =
        m.trace
        ++ store ch 0 d.per_addr_h
          ∷ store ch 1 d.per_addr_l
          ∷ store ch 2 d.host_addr_h
          ∷ store ch 3 d.host_addr_l
          ∷ store ch 4 d.next_bda_h
          ∷ store ch 5 d.next_bda_l
          ∷ store ch 6 d.length
          ∷ store ch 7 d.control
          ∷ [];
  },
)

-- the register of the enabled interrupts gets a value
abbrev pub set_inte : ℕ → Action (Unit {0})
set_inte v m =
    some
      (ok tt, record m { engine = record m.engine { inte = v }; trace = m.trace ++ enable v ∷ [] })

-- `enableInterrupt`
unfoldable pub enable_interrupt : ℕ → Action (Unit {0})
enable_interrupt ch m = set_inte (bit_or m.engine.inte (if ch == 0 then 2 else 1)) m

-- `disableInterrupt`: the masks are `!INTE_CH0` and `!INTE_CH1`, which are 0.
unfoldable pub disable_interrupt : ℕ → Action (Unit {0})
disable_interrupt ch m = set_inte (bit_and m.engine.inte 0) m

-- what `PCIDriver::waitForInterrupt` throws for an exception
abbrev pub interrupt_error : Exception → Error
interrupt_error device_not_open = not_open
interrupt_error device_interrupt_failed = interrupt_failed
interrupt_error e = below e

-- `waitForInterrupt`, through `PCIDriver`; the sources of the channels are 0 and 1
unfoldable pub await_interrupt : List ℕ → ℕ → Action (Unit {0})
await_interrupt rounds ch m = elim (wait_for_interrupt rounds m.dev ch) [
  | none ↦ none
  | some (thrown, process) ↦
      let n = record m { dev = record m.dev { process = process } } in
      elim thrown [ none ↦ some (ok tt, n) | some e ↦ some (err (interrupt_error e), n) ]
]

-- the saved data is put back, if there is any
unfoldable pub put_back : ℕ → Engine → Engine
put_back ch e =
    let c = e.channel ch in
    let list = restore_saved_data c.saved_data (e.lists c.saved_data.buf) in
    if c.saved
    then record e {
      lists = put c.saved_data.buf list e.lists;
      channel = put ch (record c { saved = false }) e.channel;
    }
    else e

-- the exception of a wait that has taken too long
unfoldable pub time_out : ℕ → Action (Unit {0})
time_out ch = do
  change_engine (put_back ch)
  counted ← gets (λ m. m.engine.transferred ch)
  raise (dma_timeout (elim counted [ none ↦ 0 | some n ↦ n ]))

-- the loop that polls the status; a round is the status and whether the time is over by then
unfoldable pub poll : List (ℕ × Bool) → ℕ → ℕ → Action (Unit {0})
poll [] ch loop_count m = none
poll ((status, late) ∷ rounds) ch loop_count m =
    let rest = poll rounds ch (uint (loop_count + 1)) in
    let tired = ltb m.engine.loop_limit loop_count in
    if is_over (get_status status)
    then skip m
    else if late
    then time_out ch m
    else (when tired (access sleep) >> rest) m

-- What a wait gets: the rounds of polling, or the status, the interrupts before each test of the driver
-- and whether it was late. The time is over only if a timeout was given.
pub record WaitAnswer : Type 0 where
  pub rounds : List (ℕ × Bool)
  pub status : ℕ
  pub interrupts : List ℕ
  pub late : Bool

-- the wait by interrupt
unfoldable pub wait_by_interrupt : WaitAnswer → ℕ → Action (Unit {0})
wait_by_interrupt k ch = do
  when (not (is_over (get_status k.status)))
      (do enable_interrupt ch; await_interrupt k.interrupts ch; disable_interrupt ch)
  when k.late (time_out ch)

-- `waitChannel`
unfoldable pub wait_channel : WaitAnswer → ℕ → Action (Unit {0})
wait_channel k ch = do
  by_interrupt ← gets (λ m. m.engine.use_interrupts)
  if by_interrupt then wait_by_interrupt k ch else poll k.rounds ch 0
  change_engine (put_back ch)

-- `sendDescriptorList`
unfoldable pub send_descriptor_list : DmaBuffer → ℕ → ℕ → ℕ → ℕ → Bool → ℕ → Action (Unit {0})
send_descriptor_list buf bar addr count offset inc ch m =
    let e = m.engine in
    let s = prepare buf.id buf.size bar addr count offset inc (e.lists buf.id) (e.channel ch) in
    let n = record m {
      engine = record e { lists = put buf.id s.list e.lists; channel = put ch s.channel e.channel };
    } in
    (ended (sync_user_memory n.dev buf.descriptors to_device) >> write ch s.first) n

-- the descriptor for a kernel buffer
unfoldable pub single : ℕ → ℕ → ℕ → ℕ → ℕ → Bool → Bool → Descriptor
single pa bar addr count offset inc use_interrupts =
    let word = bit_or (bit_or ctrl_last (ctrl_bar bar)) (bit_or ctrl_upa ctrl_v) in
    let told = bit_or word (if use_interrupts then ctrl_edi else 0) in
    let blank : Descriptor = record {
      per_addr_h = 0;
      per_addr_l = 0;
      host_addr_h = 0;
      host_addr_l = 0;
      next_bda_h = 0;
      next_bda_l = 0;
      length = 0;
      control = 0;
      pa = 0;
    } in
    set_control (bit_or told (if inc then ctrl_inc else 0)) (
      set_length (uint (count * 4))
        (set_next 0 (set_peripheral (uint (addr * 4)) (set_host (ulong (pa + offset)) blank))))

-- a kernel buffer's descriptor is sent, and nothing is saved
unfoldable pub send_single : KernelMemory → ℕ → ℕ → ℕ → ℕ → Bool → ℕ → Action (Unit {0})
send_single k bar addr count offset inc ch m =
    write ch (single k.pa bar addr count offset inc m.engine.use_interrupts) m

abbrev pub forget : ℕ → Engine → Engine
forget ch e = record e { channel = put ch (record (e.channel ch) { saved = false }) e.channel }

-- the transfer is started: `host2board` after its checks
unfoldable pub start_down : DmaBuffer → Memory → ℕ → ℕ → ℕ → ℕ → Bool → Action (Unit {0})
start_down buf (kernel k) bar addr count offset inc = do
  change_engine (forget 0)
  sync buf both
  send_single k bar addr count offset inc 0
start_down buf (kernel_pieces k) bar addr count offset inc = do
  sync buf both
  send_descriptor_list buf bar addr count offset inc 0
start_down buf (user u) bar addr count offset inc = do
  sync buf both
  send_descriptor_list buf bar addr count offset inc 0

-- the checks that both directions make
unfoldable pub check : DmaBuffer → ℕ → ℕ → Action (Unit {0})
check buf count offset =
    if count == 0
    then raise empty_transfer
    else if ltb buf.size (uint (offset + count) * 4)
    then raise address_out_of_range
    else skip

-- the channel is reset, and its interrupt is disabled if the status is polled
unfoldable pub clear_channel : ℕ → Action (Unit {0})
clear_channel ch = do
  reset ch
  by_interrupt ← gets (λ m. m.engine.use_interrupts)
  when (not by_interrupt) (disable_interrupt ch)

-- `host2board`
unfoldable pub host2board : WaitAnswer → DmaBuffer → ℕ → ℕ → ℕ → ℕ → Bool → Bool → Action (Unit {0})
host2board k buf bar addr count offset inc lock = do
  check buf count offset
  clear_channel 0
  start_down buf buf.memory bar addr count offset inc
  when lock (wait_channel k 0)

-- `board2host` after its checks
unfoldable pub start_up : DmaBuffer → Memory → ℕ → ℕ → ℕ → ℕ → Bool → Action (Unit {0})
start_up buf (kernel k) bar addr count offset inc = do
  change_engine (forget 1)
  send_single k bar addr count offset inc 1
start_up buf (kernel_pieces k) bar addr count offset inc =
    send_descriptor_list buf bar addr count offset inc 1
start_up buf (user u) bar addr count offset inc =
    send_descriptor_list buf bar addr count offset inc 1

-- the wait of `board2host`, which syncs the buffer also if the wait throws
unfoldable pub wait_and_sync : WaitAnswer → DmaBuffer → Action (Unit {0})
wait_and_sync k buf m = elim (wait_channel k 1 m) [
  | none ↦ none
  | some (ok r, n) ↦ sync buf from_device n
  | some (err e, n) ↦ (sync buf from_device >> raise e) n
]

-- `board2host`
unfoldable pub board2host : WaitAnswer → DmaBuffer → ℕ → ℕ → ℕ → ℕ → Bool → Bool → Action (Unit {0})
board2host k buf bar addr count offset inc lock = do
  check buf count offset
  clear_channel 1
  when (ltb 0 offset || ltb count (buf.size / 4)) (sync buf to_device)
  start_up buf buf.memory bar addr count offset inc
  when lock (wait_and_sync k buf)
