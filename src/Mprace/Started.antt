-- ===== src/Mprace/Started.antt =====
-- `host2board` of DMAEngineWG.cpp up to its wait.
use fpga_pcie_drivers.Common.{
  ℕ, ◌+◌, ◌*◌, ◌^◌, ◌≤◌, ◌<◌, ◌≡◌, ◌∙◌, refl, ap, Bool, false, not, Option, none, some, [], ◌∷◌,
  ◌++◌, arith, ltb, ◌==◌,
}
use Prim.Native.Nat.{bit_and, bit_or}
use fpga_pcie_drivers.Mprace.Descriptor.{Descriptor, ctrl_reset, ctrl_v}
use fpga_pcie_drivers.Device.{uint}
use fpga_pcie_drivers.Ioctl.Calls.{ioctl_umem_sync}
use fpga_pcie_drivers.Cpp.Device.{PciDevice, Exception}
use fpga_pcie_drivers.Cpp.Mapping.{UserMemory, sync_user_memory}
use fpga_pcie_drivers.Mprace.Send.{prepare}
use fpga_pcie_drivers.Mprace.Machine.{
  user, DmaBuffer, Engine, Machine, ok, err, Action, ◌>>◌, sync, sync_memory, both, to_device,
  ended, bind-ok, calls, below, store, enable, when,
}
use fpga_pcie_drivers.Mprace.Engine.{
  put, check, clear_channel, disable_interrupt, start_down, send_descriptor_list, write,
}

-- An action that returns, leaves the device alone and changes the engine to `e`.
pub record Does (f : Action (Unit {0})) (m : Machine) (e : Engine) : Type 0 where
  pub after : Machine
  pub returns : f m ≡ some (ok tt, after)
  pub engine : after.engine ≡ e
  pub dev : after.dev ≡ m.dev

synced_process :
    (dev : PciDevice) (u : UserMemory) (dir : ℕ) → (sync_user_memory dev u dir).1 ≡ dev.process
unfolding sync_user_memory ioctl_umem_sync
synced_process dev u dir = ground arith

ended-Does :
    (u : UserMemory) (dir : ℕ) (m : Machine)
    → (sync_user_memory m.dev u dir).0 ≡ none
    → Does (ended (sync_user_memory m.dev u dir)) m m.engine
ended-Does u dir m good =
    let (thrown, process, events) = sync_user_memory m.dev u dir in
    let after : Machine = record m {
      dev = record m.dev { process = process };
      trace = m.trace ++ calls events ∷ [];
    } in
    record {
      after = after;
      returns =
          ap
            (λ (t : Option Exception). elim t [
              | none ↦ some (ok tt, after)
              | some e ↦ some (err (below e), after)
            ])
            good;
      engine = refl;
      dev = ap (λ p. record m.dev { process = p }) (synced_process m.dev u dir);
    }

pub check_lem :
    (buf : DmaBuffer) (count offset : ℕ) (m : Machine)
    → 0 < count
    → (offset + count) * 4 ≤ buf.size
    → buf.size < 2 ^ 32
    → check buf count offset m ≡ some (ok tt, m)
unfolding check
check_lem buf count offset m pos room small =
    let a : (count == 0) ≡ false = ground arith in
    let b : ltb buf.size (uint (offset + count) * 4) ≡ false = ground arith in rw (a, b) refl

pub clear_channel-Does :
    (ch : ℕ) (m : Machine)
    → m.engine.use_interrupts ≡ false
    → Does (clear_channel ch) m (record m.engine { inte = bit_and m.engine.inte 0 })
unfolding clear_channel disable_interrupt
clear_channel-Does ch m polls =
    let m' : Machine = record m { trace = m.trace ++ store ch 7 (bit_or ctrl_reset ctrl_v) ∷ [] } in
    record {
      after = record m' {
        engine = record m.engine { inte = bit_and m.engine.inte 0 };
        trace = m'.trace ++ enable (bit_and m.engine.inte 0) ∷ [];
      };
      returns = ap (λ b. when (not b) (disable_interrupt ch) m') polls;
      engine = refl;
      dev = refl;
    }

-- the engine once a part of the buffer has been sent
abbrev pub sent_engine : DmaBuffer → ℕ → ℕ → ℕ → ℕ → Bool → ℕ → Engine → Engine
sent_engine buf bar addr count offset inc ch e =
    let s = prepare buf.id buf.size bar addr count offset inc (e.lists buf.id) (e.channel ch) in
    record e { lists = put buf.id s.list e.lists; channel = put ch s.channel e.channel }

then-Does :
    (f g : Action (Unit {0})) (m : Machine) (e e' : Engine) (d : Does f m e)
    → Does g d.after e'
    → Does (f >> g) m e'
then-Does f g m e e' d d' = record {
  after = d'.after;
  returns = bind-ok f g m d.after d.returns ∙ d'.returns;
  engine = d'.engine;
  dev = d'.dev ∙ d.dev;
}

write-Does :
    (ch : ℕ) (d : Descriptor) (m : Machine) (e : Engine) → m.engine ≡ e → Does (write ch d) m e
unfolding write
write-Does ch d m e same = record {
  after = record m {
    trace =
        m.trace
        ++ store ch 0 d.per_addr_h
          ∷ store ch 1 d.per_addr_l
          ∷ store ch 2 d.host_addr_h
          ∷ store ch 3 d.host_addr_l
          ∷ store ch 4 d.next_bda_h
          ∷ store ch 5 d.next_bda_l
          ∷ store ch 6 d.length
          ∷ store ch 7 d.control
          ∷ [];
  };
  returns = refl;
  engine = same;
  dev = refl;
}

send_descriptor_list-Does :
    (buf : DmaBuffer) (bar addr count offset : ℕ) (inc : Bool) (ch : ℕ) (m : Machine) (e : Engine)
    → m.engine ≡ e
    → (sync_user_memory m.dev buf.descriptors to_device).0 ≡ none
    → Does
        (send_descriptor_list buf bar addr count offset inc ch)
        m
        (sent_engine buf bar addr count offset inc ch e)
unfolding send_descriptor_list
send_descriptor_list-Does buf bar addr count offset inc ch m e same good =
    let s =
      prepare buf.id buf.size bar addr count offset inc (m.engine.lists buf.id)
        (m.engine.channel ch) in
    let n : Machine = record m { engine = sent_engine buf bar addr count offset inc ch m.engine } in
    let d = ended-Does buf.descriptors to_device n good in
    let r =
      then-Does (ended (sync_user_memory n.dev buf.descriptors to_device)) (write ch s.first) n
        n.engine (sent_engine buf bar addr count offset inc ch e) d
        (write-Does ch s.first d.after (sent_engine buf bar addr count offset inc ch e)
          (d.engine ∙ ap (sent_engine buf bar addr count offset inc ch) same)) in
    record { after = r.after; returns = r.returns; engine = r.engine; dev = r.dev }

-- up to the wait
pub started-Does :
    (buf : DmaBuffer) (u : UserMemory) (bar addr count offset : ℕ) (inc : Bool) (m : Machine)
    (e : Engine)
    → m.engine ≡ e
    → buf.memory ≡ user u
    → (sync_user_memory m.dev u both).0 ≡ none
    → (sync_user_memory m.dev buf.descriptors to_device).0 ≡ none
    → Does
        (start_down buf (user u) bar addr count offset inc)
        m
        (sent_engine buf bar addr count offset inc 0 e)
unfolding start_down sync sync_memory
started-Does buf u bar addr count offset inc m e same is_user good list_good =
    let d = ended-Does u both m good in
    let d' : Does (sync buf both) m m.engine = record {
      after = d.after;
      returns = ap (λ v. ended (sync_memory m.dev v both) m) is_user ∙ d.returns;
      engine = d.engine;
      dev = d.dev;
    } in
    then-Does (sync buf both) (send_descriptor_list buf bar addr count offset inc 0) m m.engine
      (sent_engine buf bar addr count offset inc 0 e) d'
      (send_descriptor_list-Does buf bar addr count offset inc 0 d.after e (d.engine ∙ same)
        (ap (λ dev. (sync_user_memory dev buf.descriptors to_device).0) d.dev ∙ list_good))
