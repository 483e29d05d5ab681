-- ===== src/Mprace/Machine.antt =====
-- The state of a DMA engine, its buffers and its driver; the calls of the engine as actions on it.
use fpga_pcie_drivers.Common.{
  ℕ, Bool, true, false, Option, none, some, List, [], ◌∷◌, ◌++◌, ◌≡◌, ap,
}
use fpga_pcie_drivers.Kernel.{Event}
use fpga_pcie_drivers.Cpp.Device.{PciDevice, Exception, Ended}
use fpga_pcie_drivers.Cpp.Buffer.{KernelMemory, sync_kernel_memory}
use fpga_pcie_drivers.Cpp.Mapping.{UserMemory, sync_user_memory}
use fpga_pcie_drivers.Mprace.Send.{DescriptorList, Channel}

-- `Exception::Types` of mprace, those that the engine, its driver and the boards throw
pub data Error : Type 0 where
  unknown kernel_alloc_failed user_mmap_failed interrupt_failed not_open : Error
  address_out_of_range empty_transfer oversized_transfer : Error
  -- with the parameter, 0 if none is given
  dma_timeout : ℕ → Error
  -- what the library below throws
  below : Exception → Error

-- `DMABuffer::MemType`, with the memory
pub data Memory : Type 0 where
  kernel : KernelMemory → Memory
  kernel_pieces : KernelMemory → Memory
  user : UserMemory → Memory

-- `DMABuffer`: its address, its size, its memory, and the memory of its descriptors.
pub record DmaBuffer : Type 0 where
  pub id : ℕ
  pub size : ℕ
  pub memory : Memory
  pub descriptors : UserMemory

-- what the engine does to the board and asks of the driver
pub data Access : Type 0 where
  -- a register of a channel, from its base
  store : ℕ → ℕ → ℕ → Access
  enable : ℕ → Access
  sleep : Access
  calls : List Event → Access

-- `DMAEngineWG`, with the lists of the buffers by their addresses. `inte` is the Interrupt Enable
-- Register, and `transferred` what a channel's register of that name gives, none if there is none.
pub record Engine : Type 0 where
  pub lists : ℕ → DescriptorList
  pub channel : ℕ → Channel
  pub use_interrupts : Bool
  pub loop_limit : ℕ
  pub inte : ℕ
  pub transferred : ℕ → Option ℕ

pub record Machine : Type 0 where
  pub engine : Engine
  pub dev : PciDevice
  pub trace : List Access

pub data Result (A : Type 0) : Type 0 where
  ok : A → Result A
  err : Error → Result A

-- None if the thread still waits.
abbrev pub Action : Type 0 → Type 0
Action A = Machine → Option (Result A × Machine)

module _ {A : Type 0} where
  abbrev pub pure : A → Action A
  pure a m = some (ok a, m)

  abbrev pub raise : Error → Action A
  raise e m = some (err e, m)

  abbrev pub gets : (Machine → A) → Action A
  gets f m = some (ok (f m), m)

infixl 5 ◌>>=◌
infixl 5 ◌>>◌
abbrev pub ◌>>=◌ : {A C : Type 0} → Action A → (A → Action C) → Action C
◌>>=◌ f g m = elim (f m) [ none ↦ none | some (ok a, n) ↦ g a n | some (err e, n) ↦ raise e n ]

abbrev pub ◌>>◌ : {A C : Type 0} → Action A → Action C → Action C
f >> g = f >>= λ _. g

abbrev pub skip : Action (Unit {0})
skip = pure tt

abbrev pub when : Bool → Action (Unit {0}) → Action (Unit {0})
when true f = f
when false f = skip

abbrev pub access : Access → Action (Unit {0})
access a m = some (ok tt, record m { trace = m.trace ++ a ∷ [] })

abbrev pub change_engine : (Engine → Engine) → Action (Unit {0})
change_engine f m = some (ok tt, record m { engine = f m.engine })

-- a call of the library below that may throw
abbrev pub ended : Ended → Action (Unit {0})
ended (thrown, process, events) m =
    let n = record m {
      dev = record m.dev { process = process };
      trace = m.trace ++ calls events ∷ [];
    } in
    elim thrown [ none ↦ some (ok tt, n) | some e ↦ some (err (below e), n) ]

-- `DMABuffer::SyncDir`
abbrev pub both : ℕ
both = 0

abbrev pub to_device : ℕ
to_device = 1

abbrev pub from_device : ℕ
from_device = 2

-- `DMABuffer::sync`: nothing for KERNEL_PIECES
unfoldable pub sync_memory : PciDevice → Memory → ℕ → Ended
sync_memory dev (kernel k) dir = sync_kernel_memory dev k dir
sync_memory dev (kernel_pieces k) dir = (none, dev.process, [])
sync_memory dev (user u) dir = sync_user_memory dev u dir

unfoldable pub sync : DmaBuffer → ℕ → Action (Unit {0})
sync buf dir m = ended (sync_memory m.dev buf.memory dir) m

-- an action behind another, by how the first one ends
pub bind-ok : (f g : Action (Unit {0})) (m n : Machine) → f m ≡ some (ok tt, n) → (f >> g) m ≡ g n
bind-ok f g m n e =
    ap (λ r. elim r [ none ↦ none | some (ok a, n) ↦ g n | some (err x, n) ↦ some (err x, n) ]) e

pub bind-err :
    (f g : Action (Unit {0})) (m n : Machine) (x : Error)
    → f m ≡ some (err x, n)
    → (f >> g) m ≡ some (err x, n)
bind-err f g m n x e =
    ap (λ r. elim r [ none ↦ none | some (ok a, n) ↦ g n | some (err x, n) ↦ some (err x, n) ]) e

pub bind-none : (f g : Action (Unit {0})) (m : Machine) → f m ≡ none → (f >> g) m ≡ none
bind-none f g m e =
    ap (λ r. elim r [ none ↦ none | some (ok a, n) ↦ g n | some (err x, n) ↦ some (err x, n) ]) e
