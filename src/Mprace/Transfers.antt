-- ===== src/Mprace/Transfers.antt =====
-- Whole transfers of DMAEngineWG.cpp: `host2board` with a wait.
use fpga_pcie_drivers.Common.{
  ℕ, ◌+◌, ◌*◌, ◌≤◌, ◌<◌, ◌≡◌, ◌⊎◌, ◌∙◌, refl, ap, inl, inr, Bool, true, false, none, some, arith,
  All, ◌==◌,
}
use mathlib.Core.Path.{subst}
use Prim.Native.Nat.{bit_and}
use fpga_pcie_drivers.Cpp.Mapping.{UserMemory, sync_user_memory}
use fpga_pcie_drivers.Mprace.Send.{Sent, prepare, restore_saved_data}
use fpga_pcie_drivers.Mprace.Found.{IsBuffer}
use fpga_pcie_drivers.Mprace.Prepared.{restore-prepare}
use fpga_pcie_drivers.Mprace.Machine.{
  dma_timeout, user, DmaBuffer, Engine, Machine, Result, ok, err, ◌>>◌, both, to_device, ended,
  bind-ok,
}
use fpga_pcie_drivers.Mprace.Engine.{
  put, put_back, WaitAnswer, wait_channel, check, clear_channel, start_down, host2board,
}
use fpga_pcie_drivers.Mprace.Started.{check_lem, clear_channel-Does, sent_engine, started-Does}
use fpga_pcie_drivers.Mprace.Waiting.{wait_channel-Waited, IsBusy, IsDone, IsLate, counted}

put_self : {A : Type 0} (i : ℕ) (v : A) (f : ℕ → A) → put i v f i ≡ v
put_self i v f = let same : (i == i) ≡ true = ground arith in rw same refl

module _ (id : ℕ) (s : Sent) (e : Engine) (saved : s.channel.saved ≡ true)
    (same : s.channel.saved_data.buf ≡ id) where
  abbrev with_sent : Engine
  with_sent = record e { lists = put id s.list e.lists; channel = put 0 s.channel e.channel }

  saved-put_back : ((put_back 0 with_sent).channel 0).saved ≡ false
  unfolding put_back
  saved-put_back = rw saved refl

  list-put_back : (put_back 0 with_sent).lists id ≡ restore_saved_data s.channel.saved_data s.list
  unfolding put_back
  list-put_back =
      let here : (id == id) ≡ true = ground arith in
      let there : (id == s.channel.saved_data.buf) ≡ true = ground arith in
      let back : (s.channel.saved_data.buf == id) ≡ true = ground arith in
      simp (saved, there, back) refl

-- What is put back after a part of the buffer was sent.
put_back-sent_engine :
    (buf : DmaBuffer) (bar addr count offset j : ℕ) (inc : Bool) (e : Engine)
    → IsBuffer buf.size (e.lists buf.id)
    → 0 < count
    → (offset + count) * 4 ≤ buf.size
    → (((put_back 0 (sent_engine buf bar addr count offset inc 0 e)).channel 0).saved ≡ false)
      × (j < (e.lists buf.id).size
          → ((put_back 0 (sent_engine buf bar addr count offset inc 0 e)).lists buf.id).at j
            ≡ (e.lists buf.id).at j)
put_back-sent_engine buf bar addr count offset j inc e buffer pos room =
    let s = prepare buf.id buf.size bar addr count offset inc (e.lists buf.id) (e.channel 0) in
    let r = λ (i : ℕ) (here : i < (e.lists buf.id).size).
      restore-prepare buf.size (e.lists buf.id) buf.id bar addr count offset inc (e.channel 0) i
        buffer pos room here in
    let (saved, same, first) = r 0 buffer.linked.some_entry in
    (
      saved-put_back buf.id s e saved same,
      λ here. ap (λ l. l.at j) (list-put_back buf.id s e saved same) ∙ (r j here).2,
    )

-- A part of at least one word is sent from a user buffer whose descriptors are at rest, by polling; what is
-- synced does not fail. Then `host2board` with `lock` goes on if on all rounds polled the channel is
-- busy and the time not over; it returns only if after such rounds comes one with a status on which
-- waiting ends, and throws DMA_TIMEOUT only if one comes that is busy and late. When it ends nothing is
-- left saved, and every descriptor of the buffer is as it was before.
pub host2board-lists :
    (k : WaitAnswer) (buf : DmaBuffer) (u : UserMemory) (bar addr count offset : ℕ) (inc : Bool)
    (m : Machine)
    → m.engine.use_interrupts ≡ false
    → buf.memory ≡ user u
    → IsBuffer buf.size (m.engine.lists buf.id)
    → 0 < count
    → (offset + count) * 4 ≤ buf.size
    → (sync_user_memory m.dev u both).0 ≡ none
    → (sync_user_memory m.dev buf.descriptors to_device).0 ≡ none
    → ((host2board k buf bar addr count offset inc true m ≡ none) × All IsBusy k.rounds)
      ⊎ ((r : Result (Unit {0})) × (n : Machine) × (host2board k buf bar addr count offset inc true
              m
            ≡ some (r, n))
          × (((r ≡ ok tt) × IsDone k.rounds)
              ⊎ ((r ≡ err (dma_timeout (counted m.engine 0))) × IsLate k.rounds))
          × ((n.engine.channel 0).saved ≡ false)
          × ((j : ℕ)
              → j < (m.engine.lists buf.id).size
              → (n.engine.lists buf.id).at j ≡ (m.engine.lists buf.id).at j))
unfolding host2board
host2board-lists k buf u bar addr count offset inc m polls is_user buffer pos room good list_good =
    let wait = wait_channel k 0 in
    let start = start_down buf buf.memory bar addr count offset inc in
    let cleared : Engine = record m.engine { inte = bit_and m.engine.inte 0 } in
    let c = clear_channel-Does 0 m polls in
    let d =
      started-Does buf u bar addr count offset inc c.after cleared c.engine is_user
        (ap (λ dev. (sync_user_memory dev u both).0) c.dev ∙ good)
        (ap (λ dev. (sync_user_memory dev buf.descriptors to_device).0) c.dev ∙ list_good) in
    let run : (check buf count offset >> (clear_channel 0 >> (start >> wait))) m ≡ wait d.after =
      bind-ok (check buf count offset) (clear_channel 0 >> (start >> wait)) m m
        (check_lem buf count offset m pos room buffer.small)
      ∙ bind-ok (clear_channel 0) (start >> wait) m c.after c.returns
      ∙ bind-ok start wait c.after d.after
          (ap (λ v. start_down buf v bar addr count offset inc c.after) is_user ∙ d.returns) in
    elim (wait_channel-Waited k 0 d.after (ap (λ e. e.use_interrupts) d.engine ∙ polls)) [
      | inl (waits, busy) ↦ inl (run ∙ waits, busy)
      | inr (r, n, ended, how, back, dev) ↦
          let same = back ∙ ap (put_back 0) d.engine in
          let restored = λ (j : ℕ).
            put_back-sent_engine buf bar addr count offset j inc cleared buffer pos room in
          inr (
            r,
            n,
            run ∙ ended,
            subst
                (λ e.
                  ((r ≡ ok tt) × IsDone k.rounds)
                  ⊎ ((r ≡ err (dma_timeout (counted e 0))) × IsLate k.rounds))
                d.engine how,
            ap (λ e. (e.channel 0).saved) same ∙ (restored 0).0,
            λ j here. ap (λ e. (e.lists buf.id).at j) same ∙ (restored j).1 here,
          )
    ]
