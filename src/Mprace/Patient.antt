-- ===== src/Mprace/Patient.antt =====
-- `writeDMA` of ABB.cpp, which waits without a timeout.
use fpga_pcie_drivers.Common.{
  ℕ, ◌+◌, ◌*◌, ◌≤◌, ◌<◌, ◌≡◌, ◌⊎◌, ◌∙◌, refl, inl, inr, Bool, true, false, ◌&&◌, none, some, List,
  [], ◌∷◌, map, arith, All, ltb, leb,
}
use fpga_pcie_drivers.Cpp.Mapping.{UserMemory, sync_user_memory}
use fpga_pcie_drivers.Mprace.Found.{IsBuffer}
use fpga_pcie_drivers.Mprace.Machine.{DmaBuffer, Machine, user, ok, both, to_device}
use fpga_pcie_drivers.Mprace.Engine.{get_status, is_over, WaitAnswer, host2board}
use fpga_pcie_drivers.Mprace.Waiting.{IsBusy, IsDone, done, not_yet, IsLate, too_late, in_time}
use fpga_pcie_drivers.Mprace.Transfers.{host2board-lists}
use fpga_pcie_drivers.Mprace.Abb.{Abb, patient, dma_mem, write_dma}

-- the rounds on which the status does not end the wait, late or not
abbrev pub IsRunning : ℕ × Bool → Type 0
IsRunning r = is_over (get_status r.0) ≡ false

abbrev unhurried : List (ℕ × Bool) → List (ℕ × Bool)
unhurried rounds = map (λ (r : ℕ × Bool). (r.0, false)) rounds

unhurried-IsRunning :
    (rounds : List (ℕ × Bool)) → All IsBusy (unhurried rounds) → All IsRunning rounds
unhurried-IsRunning [] busy = tt
unhurried-IsRunning (r ∷ rounds) (busy, others) = (busy.0, unhurried-IsRunning rounds others)

unhurried-IsDone : (rounds : List (ℕ × Bool)) → IsDone (unhurried rounds) → ¬ All IsRunning rounds
unhurried-IsDone [] ends running = elim ends [ ]
unhurried-IsDone (r ∷ rounds) (done over) running = absurd (ground (arith, running.0))
unhurried-IsDone (r ∷ rounds) (not_yet busy ends) running = unhurried-IsDone rounds ends running.1

unhurried-IsLate : (rounds : List (ℕ × Bool)) → ¬ IsLate (unhurried rounds)
unhurried-IsLate [] late = elim late [ ]
unhurried-IsLate (r ∷ rounds) (too_late running late) = absurd (ground arith)
unhurried-IsLate (r ∷ rounds) (in_time busy late) = unhurried-IsLate rounds late

write_dma_lem :
    (b : Abb) (k : WaitAnswer) (address : ℕ) (buf : DmaBuffer) (count offset : ℕ) (inc : Bool)
    (m : Machine)
    → address < b.mem_size
    → count ≤ 8192
    → write_dma b k address buf count offset inc true m
      ≡ host2board (patient k) buf dma_mem address count offset inc true m
unfolding write_dma
write_dma_lem b k address buf count offset inc m inside few =
    let known : leb b.mem_size address ≡ false = ground arith in
    let short : (inc && ltb 8192 count) ≡ false = ground arith in rw (known, short) refl

-- A part of at least one and at most 8192 words is sent to an address in the memory, from a user buffer whose
-- descriptors are at rest, by polling; what is synced does not fail. Then `writeDMA` with `lock` goes on
-- if no status polled ends the wait, however late it is, as its timeout is not passed on; and it returns
-- only if one does. It never throws; and when it returns nothing is left saved, and every descriptor of
-- the buffer is as it was before.
pub write_dma-patient :
    (b : Abb) (k : WaitAnswer) (address : ℕ) (buf : DmaBuffer) (u : UserMemory) (count offset : ℕ)
    (inc : Bool) (m : Machine)
    → address < b.mem_size
    → count ≤ 8192
    → m.engine.use_interrupts ≡ false
    → buf.memory ≡ user u
    → IsBuffer buf.size (m.engine.lists buf.id)
    → 0 < count
    → (offset + count) * 4 ≤ buf.size
    → (sync_user_memory m.dev u both).0 ≡ none
    → (sync_user_memory m.dev buf.descriptors to_device).0 ≡ none
    → ((write_dma b k address buf count offset inc true m ≡ none) × All IsRunning k.rounds)
      ⊎ ((n : Machine) × (write_dma b k address buf count offset inc true m ≡ some (ok tt, n))
          × (¬ All IsRunning k.rounds)
          × ((n.engine.channel 0).saved ≡ false)
          × ((j : ℕ)
              → j < (m.engine.lists buf.id).size
              → (n.engine.lists buf.id).at j ≡ (m.engine.lists buf.id).at j))
write_dma-patient b k address buf u count offset inc m inside few polls is_user buffer pos room good
      list_good =
    let e = write_dma_lem b k address buf count offset inc m inside few in
    elim (host2board-lists (patient k) buf u dma_mem address count offset inc m polls is_user buffer
      pos room good list_good) [
        | inl (waits, busy) ↦ inl (e ∙ waits, unhurried-IsRunning k.rounds busy)
        | inr (r, n, ends, inl (returned, over), saved, lists) ↦
            inr (n, rw returned at (e ∙ ends), unhurried-IsDone k.rounds over, saved, lists)
        | inr (r, n, ends, inr (thrown, late), saved, lists) ↦
            absurd (unhurried-IsLate k.rounds late)
      ]
