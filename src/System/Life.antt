-- ===== src/System/Life.antt =====
-- Sequences of ioctls, of writes to the attributes and of interrupts, from the probe on. Each is one
-- step: the handlers' own locking is left out.
use fpga_pcie_drivers.Common.{
  ℕ, ◌≡◌, ◌⊎◌, inl, inr, refl, sym, ◌∙◌, arith, Bool, true, false, Option, some, List, [],
  Bool-cases, ◌==◌, replicate,
}
use mathlib.Core.Option.{some-injective, none-ne-some}
use mathlib.Core.Path.{subst}
use Prim.Native.Nat.{bit_and}
use fpga_pcie_drivers.Kernel.{Event}
use fpga_pcie_drivers.Device.{PciDev, Privdata, int_maxsources}
use fpga_pcie_drivers.Kmem.{AllocAnswer}
use fpga_pcie_drivers.Umem.Map.{MapAnswer}
use fpga_pcie_drivers.Irq.Handler.{
  Registers, abb_irq_ch0, abb_irq_ch1, abb_irq_ig, abb_int_ch0, abb_int_ch1, abb_int_ig,
  abb_int_ch0_timeout, abb_int_ch1_timeout, is_abb, or_else, count_irq, check_channel,
  check_channels, handled, has_bar0, irq_handler,
}
use fpga_pcie_drivers.Irq.Handled.{irq_handler-abb, irq_handler-null, irq_handler-other}
use fpga_pcie_drivers.Base.Probe.{ProbeAnswer, probe, probe_private, probe_attributes}
use fpga_pcie_drivers.Base.Bars.{probe_irq}
use fpga_pcie_drivers.Ioctl.Config.{Answer}
use fpga_pcie_drivers.Ioctl.Dispatch.{IoctlAnswer, Command, ioctl}
use fpga_pcie_drivers.Ioctl.Invariant.{IsDevice, IsFair}
use fpga_pcie_drivers.Ioctl.Safety.{set-IsDevice, ioctl-IsDevice}
use fpga_pcie_drivers.Sysfs.Stores.{
  store_mmap_mode, store_mmap_area, store_kmem_alloc, store_kmem_free, store_umem_unmap,
}
use fpga_pcie_drivers.Sysfs.Steps.{
  store_mmap_mode-IsDevice, store_mmap_area-IsDevice, store_kmem_alloc-IsDevice,
  store_kmem_free-IsDevice, store_umem_unmap-IsDevice,
}

-- A call of the driver. What the kernel hands out is not in use.
pub data Step (d : Privdata) : Privdata → Type 0 where
  calls :
      (k : IoctlAnswer) (c : Command) (a : Answer)
      → IsFair k.alloc k.map d
      → ioctl k d c ≡ some a
      → Step d a.2
  sets_mode : (parsed : Option ℕ) → Step d (store_mmap_mode d parsed).0
  sets_area : (parsed : Option ℕ) → Step d (store_mmap_area d parsed).0
  frees : (parsed : Option ℕ) → Step d (store_kmem_free d parsed).0
  unmaps : (parsed : Option ℕ) → Step d (store_umem_unmap d parsed).0
  allocates :
      (k : AllocAnswer) (m : MapAnswer) (pa handle_id : ℕ) (parsed : Option ℕ)
      → IsFair k m d
      → Step d (store_kmem_alloc k d pa handle_id parsed).0
  interrupts :
      (r : Registers) (out : Bool × Privdata × List Event)
      → irq_handler r d ≡ some out
      → Step d out.1

pub data Reach (d : Privdata) : Privdata → Type 0 where
  here : Reach d d
  next : {e f : Privdata} → Reach d e → Step e f → Reach d f

-- At most one interrupt has been counted.
abbrev Counted : Privdata → Privdata → Type 0
Counted d out = (out ≡ d) ⊎ ((channel : ℕ) × (out ≡ count_irq channel d))

check_channel-Counted :
    (r : Registers) (round interrupt channel : ℕ) (d : Privdata)
    → Counted d (check_channel r round interrupt channel d).1
unfolding check_channel
check_channel-Counted r round interrupt channel d =
    elim (Bool-cases (bit_and (r.stat round) interrupt == 0)) [
      | inl e ↦ rw e (inl refl)
      | inr e ↦ rw e (inr (channel, refl))
    ]

-- one more check before the others
before-Counted :
    (r : Registers) (round interrupt channel : ℕ) (d : Privdata)
    (rest : Bool × Privdata × List Event)
    → Counted d rest.1
    → Counted d (or_else (check_channel r round interrupt channel d) rest).1
before-Counted r round interrupt channel d rest h =
    elim (Bool-cases (check_channel r round interrupt channel d).0) [
      | inl e ↦ rw e (check_channel-Counted r round interrupt channel d)
      | inr e ↦ rw e h
    ]

check_channels-Counted : (r : Registers) (d : Privdata) → Counted d (check_channels r d).1
unfolding check_channels
check_channels-Counted r d =
    let last = or_else (check_channel r 4 abb_int_ch1_timeout abb_irq_ch1 d) (false, d, []) in
    let fourth = or_else (check_channel r 3 abb_int_ch0_timeout abb_irq_ch0 d) last in
    let third = or_else (check_channel r 2 abb_int_ig abb_irq_ig d) fourth in
    let second = or_else (check_channel r 1 abb_int_ch1 abb_irq_ch1 d) third in
    let none_left : Counted d last.1 =
      before-Counted r 4 abb_int_ch1_timeout abb_irq_ch1 d (false, d, []) (inl refl) in
    let at_fourth : Counted d fourth.1 =
      before-Counted r 3 abb_int_ch0_timeout abb_irq_ch0 d last none_left in
    let at_third : Counted d third.1 =
      before-Counted r 2 abb_int_ig abb_irq_ig d fourth at_fourth in
    let at_second : Counted d second.1 =
      before-Counted r 1 abb_int_ch1 abb_irq_ch1 d third at_third in
    before-Counted r 0 abb_int_ch0 abb_irq_ch0 d second at_second

counted-IsDevice : (d : Privdata) (n : ℕ) → IsDevice d → IsDevice (record d { irq_count = n })
counted-IsDevice d n v = record {
  buffers = record {
    blocks = v.buffers.blocks;
    handles = v.buffers.handles;
    ids = v.buffers.ids;
    below = v.buffers.below;
  };
  mappings = record { blocks = v.mappings.blocks; ids = v.mappings.ids; below = v.mappings.below };
  mode = v.mode;
  area = v.area;
  channels = v.channels;
}

check_channels-IsDevice :
    (r : Registers) (d : Privdata) → IsDevice d → IsDevice (check_channels r d).1
check_channels-IsDevice r d v = elim (check_channels-Counted r d) [
  | inl e ↦ rw e v
  | inr (channel, e) ↦ rw e (set-IsDevice d channel _ v)
]

handled-IsDevice : (out : Bool × Privdata × List Event) → IsDevice out.1 → IsDevice (handled out).1
handled-IsDevice (true, d, events) v = counted-IsDevice d _ v
handled-IsDevice (false, d, events) v = v

irq_handler-IsDevice :
    (r : Registers) (d : Privdata) (out : Bool × Privdata × List Event)
    → irq_handler r d ≡ some out
    → IsDevice d
    → IsDevice out.1
irq_handler-IsDevice r d out returned v = elim (Bool-cases (is_abb d)) [
  | inl abb ↦ elim (Bool-cases (has_bar0 d)) [
    | inl mapped ↦
        let same : handled (check_channels r d) ≡ out =
          some-injective _ _ (sym (irq_handler-abb r d abb mapped) ∙ returned) in
        subst (λ o. IsDevice o.1) same
          (handled-IsDevice (check_channels r d) (check_channels-IsDevice r d v))
    | inr unmapped ↦ absurd (none-ne-some out (sym (irq_handler-null r d abb unmapped) ∙ returned))
  ]
  | inr other ↦
      let same : (false, d, []) ≡ out =
        some-injective _ _ (sym (irq_handler-other r d other) ∙ returned) in
      subst (λ (o : Bool × Privdata × List Event). IsDevice o.1) same v
]

probe-empty :
    (k : ProbeAnswer) (c : ℕ) (pdev : PciDev) (d : Privdata)
    → (probe k c pdev).2 ≡ some d
    → (d.kmem_list ≡ [])
      × (d.umem_list ≡ [])
      × (d.mmap_mode ≡ 0)
      × (d.mmap_area ≡ 0)
      × (d.irq_outstanding ≡ replicate int_maxsources 0)
unfolding probe probe_private probe_attributes probe_irq
probe-empty k c pdev d found = ground arith

probe-IsDevice :
    (k : ProbeAnswer) (c : ℕ) (pdev : PciDev) (d : Privdata)
    → (probe k c pdev).2 ≡ some d
    → IsDevice d
probe-IsDevice k c pdev d found =
    let (buffers, mappings, mode, area, channels) = probe-empty k c pdev d found in
    record {
      buffers = record {
        blocks = rw buffers tt;
        handles = rw buffers tt;
        ids = rw buffers tt;
        below = rw buffers tt;
      };
      mappings = record { blocks = rw mappings tt; ids = rw mappings tt; below = rw mappings tt };
      mode = omega arith;
      area = omega arith;
      channels = rw channels refl;
    }

Step-IsDevice : (d e : Privdata) → IsDevice d → Step d e → IsDevice e
Step-IsDevice d _ v (calls k c a fair returned) = ioctl-IsDevice k d c a fair v returned
Step-IsDevice d _ v (sets_mode parsed) = store_mmap_mode-IsDevice d parsed v
Step-IsDevice d _ v (sets_area parsed) = store_mmap_area-IsDevice d parsed v
Step-IsDevice d _ v (allocates k m pa handle_id parsed fair) =
    store_kmem_alloc-IsDevice k m d pa handle_id parsed fair v
Step-IsDevice d _ v (frees parsed) = store_kmem_free-IsDevice d parsed v
Step-IsDevice d _ v (unmaps parsed) = store_umem_unmap-IsDevice d parsed v
Step-IsDevice d _ v (interrupts r out returned) = irq_handler-IsDevice r d out returned v

Reach-Step : (d e : Privdata) → IsDevice d → Reach d e → IsDevice e
Reach-Step d _ v here = v
Reach-Step d _ v (next {e = middle} r s) = Step-IsDevice middle _ (Reach-Step d middle v r) s

-- From a successful probe on the device's invariant holds after every sequence of ioctls, writes to
-- the attributes and interrupts, if the memory that the kernel hands out is not in use and the
-- counters of ids do not run round: no two buffers or mappings share an address or an id, mmap is set
-- to a mode and a BAR that exist, and every channel has its counter.
pub probe-Reach :
    (k : ProbeAnswer) (c : ℕ) (pdev : PciDev) (d e : Privdata)
    → (probe k c pdev).2 ≡ some d
    → Reach d e
    → IsDevice e
probe-Reach k c pdev d e found r = Reach-Step d e (probe-IsDevice k c pdev d found) r
