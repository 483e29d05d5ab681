-- ===== src/Mprace/Driver.antt =====
-- PCIDriver.cpp: the driver of a board, which keeps the mapped BARs and tries to get memory again.
use fpga_pcie_drivers.Common.{
  ℕ, zero, suc, ◌+◌, ◌-◌, ◌^◌, Bool, true, false, Option, none, some, List, [], ◌++◌, ◌==◌,
  if◌then◌else◌,
}
use fpga_pcie_drivers.Kernel.{Event}
use fpga_pcie_drivers.Device.{KmemHandle, ulong}
use fpga_pcie_drivers.Kmem.{AllocAnswer}
use fpga_pcie_drivers.Capi.Process.{VmAnswer}
use fpga_pcie_drivers.Capi.Bars.{InfoAnswer}
use fpga_pcie_drivers.Cpp.Device.{Exception, alloc_failed, sgmap_failed, returns, throws, PciDevice}
use fpga_pcie_drivers.Cpp.Buffer.{KernelMemory, new_kernel_memory}
use fpga_pcie_drivers.Cpp.Bars.{map_bar, unmap_bar}
use fpga_pcie_drivers.Cpp.Mapping.{UserMemory, UserAnswer, new_user_memory}
use fpga_pcie_drivers.Mprace.Machine.{
  Error, kernel_alloc_failed, user_mmap_failed, below, Result, ok, err,
}
use fpga_pcie_drivers.Mprace.Engine.{put}

-- `PCIDriver`: the addresses of the mapped BARs, 0 if there is none, and how often which try for
-- memory was the last.
pub record Driver : Type 0 where
  pub dev : PciDevice
  pub bar : ℕ → ℕ
  pub retry_stats_kernel : ℕ → ℕ

-- What a call gets of the driver; none if it waits for the mutex.
abbrev pub Call : Type 0 → Type 0
Call A = Option (Result A × Driver × List Event)

-- `mmapArea`
unfoldable pub mmap_area : InfoAnswer → VmAnswer → Driver → ℕ → Call ℕ
mmap_area k v d num =
    if d.bar num == 0
    then elim (map_bar k v d.dev num) [
      | none ↦ none
      | some (throws e, p, calls) ↦
          some (err (below e), record d { dev = record d.dev { process = p } }, calls)
      | some (returns mem, p, calls) ↦
          let ptr : ℕ = elim mem [ none ↦ 0 | some a ↦ a ] in
          some (
            ok ptr,
            record d { dev = record d.dev { process = p }; bar = put num ptr d.bar },
            calls,
          )
    ]
    else some (ok (d.bar num), d, [])

-- `unmapArea`, with what is thrown
unfoldable pub unmap_area : InfoAnswer → Driver → ℕ → Option Error × Driver × List Event
unmap_area k d num =
    let (thrown, calls) = unmap_bar k d.dev num (d.bar num) in
    if d.bar num == 0 then (none, d, []) else elim thrown [
      | none ↦ (none, record d { bar = put num 0 d.bar }, calls)
      | some e ↦ (some (below e), d, calls)
    ]

-- what one try for memory gets
pub record TryAnswer : Type 0 where
  pub alloc : AllocAnswer
  pub map : VmAnswer
  pub old : KmemHandle

abbrev pub max_retries : ℕ
max_retries = 20

-- whether an exception is ALLOC_FAILED
abbrev pub is_alloc_failed : Exception → Bool
is_alloc_failed alloc_failed = true
is_alloc_failed e = false

-- the try `retry_count` is counted as the last one, or no longer
abbrev pub count_try : ℕ → (ℕ → ℕ) → ℕ → ℕ
count_try retry_count stats = put retry_count (ulong (stats retry_count + 1)) stats

abbrev pub uncount_try : ℕ → (ℕ → ℕ) → ℕ → ℕ
uncount_try retry_count stats = put retry_count (ulong (stats retry_count + 2 ^ 64 - 1)) stats

-- the loop of `allocKernelMemory`, with the rounds that are left
unfoldable pub alloc_loop : ℕ → (ℕ → TryAnswer) → ℕ → ℕ → Driver → List Event → Call KernelMemory
alloc_loop zero k size retry_count d calls = some (err kernel_alloc_failed, d, calls)
alloc_loop (suc rounds) k size retry_count d calls =
    let t = k retry_count in
    let stats = count_try retry_count d.retry_stats_kernel in
    elim (new_kernel_memory t.alloc t.map t.old d.dev size) [
      | none ↦ none
      | some (returns m, p, more) ↦ some (
        ok m,
        record d { dev = record d.dev { process = p }; retry_stats_kernel = stats },
        calls ++ more,
      )
      | some (throws e, p, more) ↦
          let again = record d {
            dev = record d.dev { process = p };
            retry_stats_kernel = uncount_try retry_count stats;
          } in
          let rest = alloc_loop rounds k size (retry_count + 1) again (calls ++ more) in
          let ended = record again { retry_stats_kernel = stats } in
          if is_alloc_failed e then rest else some (err (below e), ended, calls ++ more)
    ]

-- `allocKernelMemory`
unfoldable pub alloc_kernel_memory : (ℕ → TryAnswer) → ℕ → Driver → Call KernelMemory
alloc_kernel_memory k size d = alloc_loop max_retries k size 0 d []

-- what `mapUserMemory` throws for an exception
abbrev pub mapping_error : Exception → Error
mapping_error sgmap_failed = user_mmap_failed
mapping_error e = below e

-- `mapUserMemory`
unfoldable pub map_user_memory :
    UserAnswer → Driver → ℕ → ℕ → Bool → Result UserMemory × Driver × List Event
map_user_memory k d mem size merged =
    let (outcome, p, calls) = new_user_memory k d.dev mem size merged in
    let result : Result UserMemory = elim outcome [
      | returns m ↦ ok m
      | throws e ↦ err (mapping_error e)
    ] in
    (result, record d { dev = record d.dev { process = p } }, calls)
