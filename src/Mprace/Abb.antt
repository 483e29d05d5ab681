-- ===== src/Mprace/Abb.antt =====
-- ABB.cpp: accesses to the BARs of the board, and its DMA. The log that a board may keep is left out.
use fpga_pcie_drivers.Common.{
  ℕ, zero, suc, ◌+◌, ◌-◌, ◌^◌, Bool, false, ◌&&◌, Option, none, some, List, [], ◌∷◌, map, ltb, leb,
  length, if◌then◌else◌,
}
use fpga_pcie_drivers.Device.{uint}
use fpga_pcie_drivers.Mprace.Machine.{
  Error, address_out_of_range, oversized_transfer, DmaBuffer, Action, raise,
}
use fpga_pcie_drivers.Mprace.Engine.{WaitAnswer, host2board, board2host}

-- the BARs that the board maps
pub data Area : Type 0 where
  regs mem fifo : Area

-- a word of a BAR by its index from the pointer to the BAR, which is not wrapped
pub data BarAccess : Type 0 where
  store : Area → ℕ → ℕ → BarAccess
  load : Area → ℕ → BarAccess

-- the sizes of the BARs, in words
pub record Abb : Type 0 where
  pub regs_size : ℕ
  pub mem_size : ℕ
  pub fifo_size : ℕ

-- what is thrown, and what the board is asked for
abbrev pub Accessed : Type 0
Accessed = Option Error × List BarAccess

abbrev pub refused : Accessed
refused = (some address_out_of_range, [])

-- `setReg`, `write` and `writeFIFO`
unfoldable pub set_reg : Abb → ℕ → ℕ → Accessed
set_reg b address value =
    if ltb address b.regs_size then (none, store regs address value ∷ []) else refused

unfoldable pub write : Abb → ℕ → ℕ → Accessed
write b address value =
    if leb b.mem_size address then refused else (none, store mem address value ∷ [])

unfoldable pub write_fifo : Abb → ℕ → ℕ → Accessed
write_fifo b address value =
    if leb b.fifo_size address then refused else (none, store fifo address value ∷ [])

-- `getReg`, `read` and `readFIFO`, which return what the board answers to the load
unfoldable pub get_reg : Abb → ℕ → Accessed
get_reg b address = if ltb address b.regs_size then (none, load regs address ∷ []) else refused

unfoldable pub read : Abb → ℕ → Accessed
read b address = if leb b.mem_size address then refused else (none, load mem address ∷ [])

unfoldable pub read_fifo : Abb → ℕ → Accessed
read_fifo b address = if leb b.fifo_size address then refused else (none, load fifo address ∷ [])

-- the loops of a block: the words go to indices in a row, or all to one
unfoldable pub stores : Bool → ℕ → List ℕ → List BarAccess
stores inc i [] = []
stores inc i (x ∷ xs) = store mem i x ∷ stores inc (if inc then i + 1 else i) xs

unfoldable pub loads : Bool → ℕ → ℕ → List BarAccess
loads inc i zero = []
loads inc i (suc count) = load mem i ∷ loads inc (if inc then i + 1 else i) count

-- The checks of a block of `count` words, and the index at which its loop starts. In both branches the
-- loop is on `mem`.
unfoldable pub block_start : Abb → ℕ → ℕ → Bool → Option ℕ
block_start b address count inc =
    let addr_end = if inc then uint (address + count) else address in
    let span = uint (b.mem_size + b.fifo_size) in
    if ltb address b.mem_size && ltb addr_end b.mem_size
    then some address
    else if ltb address span && ltb addr_end span
    then some (uint (address + 2 ^ 32 - b.mem_size))
    else none

-- `writeBlock` of the words `xs`
unfoldable pub write_block : Abb → ℕ → List ℕ → Bool → Accessed
write_block b address xs inc = elim (block_start b address (length xs) inc) [
  | none ↦ refused
  | some i ↦ (none, stores inc i xs)
]

-- `readBlock`
unfoldable pub read_block : Abb → ℕ → ℕ → Bool → Accessed
read_block b address count inc = elim (block_start b address count inc) [
  | none ↦ refused
  | some i ↦ (none, loads inc i count)
]

-- a wait without a timeout, which is never late
abbrev pub patient : WaitAnswer → WaitAnswer
patient k = record k { rounds = map (λ r. (r.0, false)) k.rounds; late = false }

-- `DMA_MEM` and `DMA_FIFO`
abbrev pub dma_mem : ℕ
dma_mem = 1

abbrev pub dma_fifo : ℕ
dma_fifo = 2

-- the checks of a transfer to or from the memory
abbrev pub in_memory : Abb → ℕ → ℕ → Bool → Action (Unit {0}) → Action (Unit {0})
in_memory b address count inc transfer =
    if leb b.mem_size address
    then raise address_out_of_range
    else if inc && ltb 8192 count
    then raise oversized_transfer
    else transfer

-- `writeDMA`, which does not pass its timeout on
unfoldable pub write_dma :
    Abb → WaitAnswer → ℕ → DmaBuffer → ℕ → ℕ → Bool → Bool → Action (Unit {0})
write_dma b k address buf count offset inc lock =
    in_memory b address count inc (host2board (patient k) buf dma_mem address count offset inc lock)

-- `writeDMAFIFO`, which does not either
unfoldable pub write_dma_fifo :
    Abb → WaitAnswer → ℕ → DmaBuffer → ℕ → ℕ → Bool → Bool → Action (Unit {0})
write_dma_fifo b k address buf count offset inc lock =
    if leb b.fifo_size address
    then raise address_out_of_range
    else host2board (patient k) buf dma_fifo address count offset inc lock

-- `readDMA`
unfoldable pub read_dma : Abb → WaitAnswer → ℕ → DmaBuffer → ℕ → ℕ → Bool → Bool → Action (Unit {0})
read_dma b k address buf count offset inc lock =
    in_memory b address count inc (board2host k buf dma_mem address count offset inc lock)

-- `readDMAFIFO`
unfoldable pub read_dma_fifo :
    Abb → WaitAnswer → ℕ → DmaBuffer → ℕ → ℕ → Bool → Bool → Action (Unit {0})
read_dma_fifo b k address buf count offset inc lock =
    if leb b.fifo_size address
    then raise address_out_of_range
    else board2host k buf dma_fifo address count offset inc lock
