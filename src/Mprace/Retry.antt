-- ===== src/Mprace/Retry.antt =====
-- The loop of `allocKernelMemory` of PCIDriver.cpp.
use fpga_pcie_drivers.Common.{
  ℕ, zero, suc, ◌+◌, ◌^◌, ◌<◌, ◌≡◌, ◌∙◌, refl, sym, ap, inl, inr, Bool, true, false, Bool-cases,
  Option-cases, some, List, [], ◌++◌, ◌==◌, ==_iff, arith,
}
use mathlib.Core.Path.{subst, fun_ext}
use fpga_pcie_drivers.Kernel.{Event, failed}
use fpga_pcie_drivers.Device.{KmemHandle, uint, mmap_kmem}
use fpga_pcie_drivers.Kmem.{AllocAnswer}
use fpga_pcie_drivers.Capi.Process.{Process, VmAnswer, on, stack, kmem_reply, mmap_device}
use fpga_pcie_drivers.Ioctl.Config.{ioctl_mmap_mode}
use fpga_pcie_drivers.Ioctl.Calls.{ioctl_kmem_alloc}
use fpga_pcie_drivers.Cpp.Device.{Outcome, returns, throws, PciDevice}
use fpga_pcie_drivers.Cpp.Buffer.{KernelMemory, new_kernel_memory, map_memory, Constructed}
use fpga_pcie_drivers.Mprace.Machine.{kernel_alloc_failed, below, Result, ok, err}
use fpga_pcie_drivers.Mprace.Driver.{
  Driver, Call, TryAnswer, is_alloc_failed, count_try, uncount_try, alloc_loop, alloc_kernel_memory,
}

-- A try for memory that ends, with the mutex free.
abbrev IsFree : Constructed → Type 0
IsFree c =
    (o : Outcome KernelMemory) × (p : Process) × (calls : List Event) × (c ≡ some (o, p, calls))
    × (p.locked ≡ false)

map_memory-IsFree :
    (v : VmAnswer) (kh : KmemHandle) (size : ℕ) (p : Process) (calls : List Event)
    → IsFree (map_memory v kh size p calls)
unfolding map_memory
map_memory-IsFree v kh size p calls =
    let (status, reply, d, more) = ioctl_mmap_mode p.device mmap_kmem in
    elim (Bool-cases (failed status)) [
      | inl bad ↦ rw bad (_, _, _, refl, refl)
      | inr good ↦ elim (Option-cases (mmap_device v d size).0) [
        | inl lost ↦ rw (good, lost) (_, _, _, refl, refl)
        | inr (mem, found) ↦ rw (good, found) (_, _, _, refl, refl)
      ]
    ]

new_kernel_memory-IsFree :
    (k : AllocAnswer) (v : VmAnswer) (old : KmemHandle) (dev : PciDevice) (size : ℕ)
    → dev.process.locked ≡ false
    → IsFree (new_kernel_memory k v old dev size)
unfolding new_kernel_memory
new_kernel_memory-IsFree k v old dev size free =
    let (status, reply, d, calls) =
      ioctl_kmem_alloc stack k dev.process.device (record old { size = uint size }) in
    let kh = kmem_reply reply (record old { size = uint size }) in
    elim (Bool-cases dev.is_open) [
      | inl opened ↦ elim (Bool-cases (failed status)) [
        | inl bad ↦ rw (opened, bad) (_, _, _, refl, free)
        | inr good ↦
            rw (opened, good, free)
              (map_memory-IsFree v kh (uint size) (record (on dev.process d) { locked = true })
                calls)
      ]
      | inr closed ↦ rw closed (_, _, _, refl, free)
    ]

-- whether the loop goes on after a try
abbrev pub is_retried : Outcome KernelMemory → Bool
is_retried (returns m) = false
is_retried (throws e) = is_alloc_failed e

abbrev pub result_of : Outcome KernelMemory → Result KernelMemory
result_of (returns m) = ok m
result_of (throws e) = err (below e)

module _ (k : ℕ → TryAnswer) (size : ℕ) where
  abbrev pub try : ℕ → PciDevice → Constructed
  try i dev = new_kernel_memory (k i).alloc (k i).map (k i).old dev size

  -- Tries that fail for want of memory, from the `i`th on the device `dev` to before the `j`th.
  pub data Failing : ℕ → PciDevice → ℕ → PciDevice → Type 0 where
    so_far : {i : ℕ} {dev : PciDevice} → Failing i dev i dev
    failed_at :
        {i j : ℕ} {dev last : PciDevice} {o : Outcome KernelMemory} {p : Process}
        {calls : List Event}
        → try i dev ≡ some (o, p, calls)
        → is_retried o ≡ true
        → Failing (i + 1) (record dev { process = p }) j last
        → Failing i dev j last

  -- What the loop comes to, from the try `i` on.
  pub data Tried (rounds i : ℕ) (d : Driver) (result : Call KernelMemory) : Type 0 where
    all_failed :
        {last : PciDevice} {calls : List Event}
        → Failing i d.dev (i + rounds) last
        → last.process.locked ≡ false
        → result ≡ some (err kernel_alloc_failed, record d { dev = last }, calls)
        → Tried rounds i d result
    ended_at :
        {j : ℕ} {last : PciDevice} {o : Outcome KernelMemory} {p : Process}
        {calls more : List Event}
        → j < i + rounds
        → Failing i d.dev j last
        → try j last ≡ some (o, p, more)
        → is_retried o ≡ false
        → p.locked ≡ false
        → result
          ≡ some (
            result_of o,
            record d {
              dev = record last { process = p };
              retry_stats_kernel = count_try j d.retry_stats_kernel;
            },
            calls,
          )
        → Tried rounds i d result

  same_stats :
      (i : ℕ) (stats : ℕ → ℕ)
      → ((j : ℕ) → stats j < 2 ^ 64)
      → uncount_try i (count_try i stats) ≡ stats
  same_stats i stats small = fun_ext (λ j.
      let b = small j in
      elim (Bool-cases (j == i)) [
        | inl here ↦
            let same : (i == i) ≡ true = ground arith in
            let e : j ≡ i = (==_iff _ _).0 here in
            let c : stats i < 2 ^ 64 = small i in rw (here, e, same) (omega arith)
        | inr other ↦ rw other refl
      ])

  after :
      (rounds i : ℕ) (d : Driver) (result : Call KernelMemory) (o : Outcome KernelMemory)
      (p : Process) (calls : List Event)
      → try i d.dev ≡ some (o, p, calls)
      → is_retried o ≡ true
      → Tried rounds (i + 1) (record d { dev = record d.dev { process = p } }) result
      → Tried (suc rounds) i d result
  after rounds i d result o p calls e again (all_failed {last} f free r) =
      all_failed
        (failed_at e again
          (subst (λ n. Failing (i + 1) (record d.dev { process = p }) n last) (omega arith) f))
        free r
  after rounds i d result o p calls e again (ended_at h f t over free r) =
      ended_at (omega arith) (failed_at e again f) t over free r

  loop_ends :
      (rounds i : ℕ) (d : Driver) (calls more : List Event) (o : Outcome KernelMemory) (p : Process)
      → try i d.dev ≡ some (o, p, more)
      → is_retried o ≡ false
      → alloc_loop (suc rounds) k size i d calls
        ≡ some (
          result_of o,
          record d {
            dev = record d.dev { process = p };
            retry_stats_kernel = count_try i d.retry_stats_kernel;
          },
          calls ++ more,
        )
  unfolding alloc_loop
  loop_ends rounds i d calls more (returns m) p e over = rw (alloc_loop, e) refl
  loop_ends rounds i d calls more (throws x) p e over = rw (alloc_loop, e, over) refl

  loop_goes_on :
      (rounds i : ℕ) (d : Driver) (calls more : List Event) (o : Outcome KernelMemory) (p : Process)
      → try i d.dev ≡ some (o, p, more)
      → is_retried o ≡ true
      → ((j : ℕ) → d.retry_stats_kernel j < 2 ^ 64)
      → alloc_loop (suc rounds) k size i d calls
        ≡ alloc_loop rounds k size
            (i + 1)
            (record d { dev = record d.dev { process = p } })
            (calls ++ more)
  loop_goes_on rounds i d calls more (returns m) p e again small = absurd (ground arith)
  loop_goes_on rounds i d calls more (throws x) p e again small =
      let next = λ (stats : ℕ → ℕ).
        alloc_loop rounds k size (i + 1)
          (record d { dev = record d.dev { process = p }; retry_stats_kernel = stats })
          (calls ++ more) in
      let step : alloc_loop (suc rounds) k size i d calls
          ≡ next (uncount_try i (count_try i d.retry_stats_kernel)) =
        unfold alloc_loop in rw (alloc_loop, e, again) refl in
      step ∙ ap next (same_stats i d.retry_stats_kernel small)

  alloc_loop-Tried :
      (rounds i : ℕ) (d : Driver) (calls : List Event)
      → d.dev.process.locked ≡ false
      → ((j : ℕ) → d.retry_stats_kernel j < 2 ^ 64)
      → Tried rounds i d (alloc_loop rounds k size i d calls)
  alloc_loop-Tried zero i d calls free small =
      let e : alloc_loop zero k size i d calls ≡ some (err kernel_alloc_failed, d, calls) =
        unfold alloc_loop in refl in
      all_failed (subst (λ n. Failing i d.dev n d.dev) (omega arith) so_far) free e
  alloc_loop-Tried (suc rounds) i d calls free small =
      let (o, p, more, e, free') =
        new_kernel_memory-IsFree (k i).alloc (k i).map (k i).old d.dev size free in
      elim (Bool-cases (is_retried o)) [
        | inl again ↦
            subst (Tried (suc rounds) i d)
              (sym (loop_goes_on rounds i d calls more o p e again small))
              (after rounds i d _ o p more e again (
                alloc_loop-Tried rounds (i + 1) (record d { dev = record d.dev { process = p } })
                  (calls ++ more) free' small))
        | inr over ↦
            ended_at (omega arith) so_far e over free' (loop_ends rounds i d calls more o p e over)
      ]

-- The mutex is free, and no counter has overflowed. Then `allocKernelMemory` returns or throws, with the mutex
-- free, after at most 20 tries. Either all 20 fail for want of memory, it throws KERNEL_ALLOC_FAILED,
-- and no counter is changed; or it gives what the first other try gives, memory or an exception, and
-- counts that try as the last one.
pub alloc_kernel_memory-Tried :
    (k : ℕ → TryAnswer) (size : ℕ) (d : Driver)
    → d.dev.process.locked ≡ false
    → ((j : ℕ) → d.retry_stats_kernel j < 2 ^ 64)
    → Tried k size 20 0 d (alloc_kernel_memory k size d)
unfolding alloc_kernel_memory
alloc_kernel_memory-Tried k size d free small = alloc_loop-Tried k size 20 0 d [] free small
