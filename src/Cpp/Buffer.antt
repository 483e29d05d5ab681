-- ===== src/Cpp/Buffer.antt =====
-- `KernelMemory` of KernelMemory.cpp.
use fpga_pcie_drivers.Common.{
  ℕ, ◌≡◌, refl, true, Option, none, some, List, [], ◌∷◌, ◌++◌, Bool-cases, Option-cases, inl, inr,
  if◌then◌else◌,
}
use mathlib.Core.Option
use fpga_pcie_drivers.Kernel.{failed, Event, act, munmap}
use fpga_pcie_drivers.Device.{KmemHandle, uint, mmap_kmem}
use fpga_pcie_drivers.Kmem.{AllocAnswer}
use fpga_pcie_drivers.Ioctl.Config.{ioctl_mmap_mode}
use fpga_pcie_drivers.Ioctl.Calls.{ioctl_kmem_alloc, ioctl_kmem_free, ioctl_kmem_sync}
use fpga_pcie_drivers.Capi.Process.{
  Process, on, unlocked, lock, stack, kmem_reply, VmAnswer, mmap_device,
}
use fpga_pcie_drivers.Cpp.Device.{
  alloc_failed, internal_error, not_open, Outcome, returns, throws, Ended, PciDevice,
}
use fpga_pcie_drivers.Capi.Buffers.Mapped.{mode_called}
use fpga_pcie_drivers.Capi.Buffers.{PdKmem, pd_alloc_kernel_memory, map_buffer}

-- `KernelMemory`; its `device` is the PciDevice.
pub record KernelMemory : Type 0 where
  pub handle_id : ℕ
  pub pa : ℕ
  pub size : ℕ
  pub mem : ℕ

-- What the constructor makes, the process and the calls. None if it waits for the mutex.
abbrev pub Constructed : Type 0
Constructed = Option (Outcome KernelMemory × Process × List Event)

-- from `pd_allockm_err` on
abbrev pub give_up : KmemHandle → Process → List Event → Constructed
give_up kh p calls =
    let (status, reply, d, more) = ioctl_kmem_free stack p.device kh in
    some (throws alloc_failed, on (unlocked p) d, calls ++ more)

-- with the mutex taken
unfoldable pub map_memory : VmAnswer → KmemHandle → ℕ → Process → List Event → Constructed
map_memory v kh size p calls =
    let (status, reply, d, more) = ioctl_mmap_mode p.device mmap_kmem in
    let (start, mapping) = mmap_device v d size in
    if failed status then give_up kh (on p d) (calls ++ more) else elim start [
      | none ↦ give_up kh (on p d) (calls ++ more ++ mapping)
      | some mem ↦ some (
        returns (record { handle_id = kh.handle_id; pa = kh.pa; size = size; mem = mem }),
        unlocked (on p d),
        calls ++ more ++ mapping,
      )
    ]

-- `KernelMemory::KernelMemory`; `old` is the `kmem_handle_t` on the stack before it is set.
unfoldable pub new_kernel_memory : AllocAnswer → VmAnswer → KmemHandle → PciDevice → ℕ → Constructed
new_kernel_memory k v old dev size =
    let (status, reply, d, calls) =
      ioctl_kmem_alloc stack k dev.process.device (record old { size = uint size }) in
    let kh = kmem_reply reply (record old { size = uint size }) in
    if dev.is_open
    then (if failed status
        then some (throws alloc_failed, on dev.process d, calls)
        else elim (lock (on dev.process d)) [
          | none ↦ none
          | some q ↦ map_memory v kh (uint size) q calls
        ])
    else some (throws not_open, dev.process, [])

-- `KernelMemory::~KernelMemory`: `getHandle` comes after the munmap.
unfoldable pub delete_kernel_memory : PciDevice → KernelMemory → Ended
delete_kernel_memory dev m =
    let (status, reply, d, calls) =
      ioctl_kmem_free stack dev.process.device
        (record { pa = m.pa; size = m.size; handle_id = m.handle_id }) in
    let unmapping = act (munmap m.mem m.size) in
    if dev.is_open
    then (if failed status then some internal_error else none, on dev.process d, unmapping ∷ calls)
    else (some not_open, dev.process, unmapping ∷ [])

-- `KernelMemory::sync`
unfoldable pub sync_kernel_memory : PciDevice → KernelMemory → ℕ → Ended
sync_kernel_memory dev m dir =
    let (status, reply, d, calls) = ioctl_kmem_sync stack dev.process.device (record {
      handle = record { pa = m.pa; size = m.size; handle_id = m.handle_id };
      dir = dir;
    }) in
    if dev.is_open
    then (if failed status then some internal_error else none, on dev.process d, calls)
    else (some not_open, dev.process, [])

-- a result of the C library, as the class gives it
abbrev pub as_memory : Option ℕ → PdKmem → Outcome KernelMemory
as_memory none h = throws alloc_failed
as_memory (some mem) h =
    returns (record { handle_id = h.handle_id; pa = h.pa; size = h.size; mem = h.mem })

abbrev pub as_constructed :
    Option ℕ × PdKmem × Process × List Event → Outcome KernelMemory × Process × List Event
as_constructed (mem, h, q, calls) = (as_memory mem h, q, calls)

map_memory-map_buffer :
    (v : VmAnswer) (kh : KmemHandle) (size : ℕ) (h : PdKmem) (p : Process) (calls : List Event)
    → h.handle_id ≡ kh.handle_id
    → h.pa ≡ kh.pa
    → h.size ≡ size
    → map_memory v kh size p calls ≡ Option.map as_constructed (map_buffer v kh h size p calls)
unfolding map_memory map_buffer
map_memory-map_buffer v kh size h p calls id pa whole =
    elim (Option-cases (mmap_device v (record p.device { mmap_mode = mmap_kmem }) size).0) [
      | inl e ↦ rw (mode_called p.device, e) refl
      | inr (mem, e) ↦ rw (mode_called p.device, e, id, pa, whole) refl
    ]

-- On an open device the constructor of KernelMemory does what `pd_allocKernelMemory` does, on every
-- path: the same calls, the same state after them, and the same buffer; where the one returns NULL the
-- other throws ALLOC_FAILED, and where the one waits, so does the other.
new_kernel_memory-pd_alloc_kernel_memory :
    (k : AllocAnswer) (v : VmAnswer) (old : KmemHandle) (dev : PciDevice) (size : ℕ) (h : PdKmem)
    → dev.is_open ≡ true
    → new_kernel_memory k v old dev size
      ≡ Option.map as_constructed (pd_alloc_kernel_memory k v old dev.process size h)
unfolding new_kernel_memory pd_alloc_kernel_memory
new_kernel_memory-pd_alloc_kernel_memory k v old dev size h opened =
    let entered = record old { size = uint size } in
    let called = ioctl_kmem_alloc stack k dev.process.device entered in
    elim (Bool-cases (failed called.0)) [
      | inl e ↦ rw (opened, e) refl
      | inr e ↦ elim (Option-cases (lock (on dev.process called.2))) [
        | inl waits ↦ rw (opened, e, waits) refl
        | inr (q, locked) ↦
            rw (opened, e, locked)
              (map_memory-map_buffer v (kmem_reply called.1 entered) (uint size)
                (record h {
                  handle_id = (kmem_reply called.1 entered).handle_id;
                  pa = (kmem_reply called.1 entered).pa;
                  size = uint size;
                })
                q called.3 refl refl refl)
      ]
    ]
