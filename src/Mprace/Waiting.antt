-- ===== src/Mprace/Waiting.antt =====
-- `waitChannel` of DMAEngineWG.cpp, and a transfer that is waited for.
use fpga_pcie_drivers.Common.{
  ℕ, ◌+◌, ◌≡◌, ◌⊎◌, ◌∙◌, refl, sym, ap, inl, inr, Bool, true, false, Bool-cases, Option, none, some,
  List, [], ◌∷◌, ◌++◌, arith, All, ltb, if◌then◌else◌,
}
use mathlib.Core.Path.{subst}
use fpga_pcie_drivers.Device.{uint}
use fpga_pcie_drivers.Mprace.Machine.{
  dma_timeout, Access, Engine, Machine, Result, ok, err, ◌>>◌, sleep, change_engine, bind-ok,
  bind-err, bind-none,
}
use fpga_pcie_drivers.Mprace.Engine.{
  get_status, is_over, put_back, time_out, poll, WaitAnswer, wait_by_interrupt, wait_channel,
}

-- the rounds on which the poll goes on
abbrev pub IsBusy : ℕ × Bool → Type 0
IsBusy r = (is_over (get_status r.0) ≡ false) × (r.1 ≡ false)

-- A poll of these rounds ends by the status: after busy rounds comes one on which waiting ends.
pub data IsDone : List (ℕ × Bool) → Type 0 where
  done :
      {status : ℕ} {late : Bool} {rounds : List (ℕ × Bool)}
      → is_over (get_status status) ≡ true
      → IsDone ((status, late) ∷ rounds)
  not_yet :
      {round : ℕ × Bool} {rounds : List (ℕ × Bool)}
      → IsBusy round
      → IsDone rounds
      → IsDone (round ∷ rounds)

-- A poll of these rounds ends by the time: after busy rounds comes one on which the channel is still busy and
-- the time is over.
pub data IsLate : List (ℕ × Bool) → Type 0 where
  too_late :
      {status : ℕ} {late : Bool} {rounds : List (ℕ × Bool)}
      → is_over (get_status status) ≡ false
      → late ≡ true
      → IsLate ((status, late) ∷ rounds)
  in_time :
      {round : ℕ × Bool} {rounds : List (ℕ × Bool)}
      → IsBusy round
      → IsLate rounds
      → IsLate (round ∷ rounds)

-- the parameter of the exception
abbrev pub counted : Engine → ℕ → ℕ
counted e ch = elim (e.transferred ch) [ none ↦ 0 | some n ↦ n ]

-- What a poll comes to: it goes on, or it ends with the machine `n`.
abbrev Polled : List (ℕ × Bool) → ℕ → Machine → Option (Result (Unit {0}) × Machine) → Type 0
Polled rounds ch m result =
    ((result ≡ none) × All IsBusy rounds)
    ⊎ ((n : Machine) × (((result ≡ some (ok tt, n)) × (n.engine ≡ m.engine) × IsDone rounds)
          ⊎ ((result ≡ some (err (dma_timeout (counted m.engine ch)), n))
              × (n.engine ≡ put_back ch m.engine)
              × IsLate rounds))
        × (n.dev ≡ m.dev))

transferred-put_back : (ch : ℕ) (e : Engine) → (put_back ch e).transferred ≡ e.transferred
unfolding put_back
transferred-put_back ch e = ground arith

time_out_lem :
    (ch : ℕ) (m : Machine)
    → time_out ch m
      ≡ some (err (dma_timeout (counted m.engine ch)), record m { engine = put_back ch m.engine })
unfolding time_out
time_out_lem ch m = rw (transferred-put_back ch m.engine) refl

longer :
    (round : ℕ × Bool) (rounds : List (ℕ × Bool)) (ch : ℕ) (m : Machine) (t : List Access)
    (result : Option (Result (Unit {0}) × Machine))
    → IsBusy round
    → Polled rounds ch (record m { trace = t }) result
    → Polled (round ∷ rounds) ch m result
longer round rounds ch m t result busy (inl (waits, others)) = inl (waits, (busy, others))
longer round rounds ch m t result busy (inr (n, inl (e, same, ends), dev)) =
    inr (n, inl (e, same, not_yet busy ends), dev)
longer round rounds ch m t result busy (inr (n, inr (e, back, some_late), dev)) =
    inr (n, inr (e, back, in_time busy some_late), dev)

-- one round, by how it goes
module _ (status : ℕ) (late : Bool) (rounds : List (ℕ × Bool)) (ch loop_count : ℕ)
    (m : Machine) where
  poll_over :
      is_over (get_status status) ≡ true
      → poll ((status, late) ∷ rounds) ch loop_count m ≡ some (ok tt, m)
  unfolding poll
  poll_over over = rw over refl

  poll_late :
      is_over (get_status status) ≡ false
      → late ≡ true
      → poll ((status, late) ∷ rounds) ch loop_count m ≡ time_out ch m
  unfolding poll
  poll_late busy reached = rw (busy, reached) refl

  poll_goes_on :
      IsBusy (status, late)
      → (t : List Access) × (poll ((status, late) ∷ rounds) ch loop_count m
          ≡ poll rounds ch (uint (loop_count + 1)) (record m { trace = t }))
  unfolding poll
  poll_goes_on (busy, on_time) = elim (Bool-cases (ltb m.engine.loop_limit loop_count)) [
    | inl tired ↦ (m.trace ++ sleep ∷ [], rw (busy, on_time, tired) refl)
    | inr awake ↦ (m.trace, rw (busy, on_time, awake) refl)
  ]

poll-Polled :
    (rounds : List (ℕ × Bool)) (ch loop_count : ℕ) (m : Machine)
    → Polled rounds ch m (poll rounds ch loop_count m)
poll-Polled [] ch loop_count m = inl (unfold poll in refl, tt)
poll-Polled ((status, late) ∷ rounds) ch loop_count m =
    let round : ℕ × Bool = (status, late) in
    elim (Bool-cases (is_over (get_status status))) [
      | inl over ↦
          inr (m, inl (poll_over status late rounds ch loop_count m over, refl, done over), refl)
      | inr busy ↦ elim (Bool-cases late) [
        | inl reached ↦
            let e = poll_late status late rounds ch loop_count m busy reached ∙ time_out_lem ch m in
            inr (
              record m { engine = put_back ch m.engine },
              inr (e, refl, too_late busy reached),
              refl,
            )
        | inr on_time ↦
            let (t, e) = poll_goes_on status late rounds ch loop_count m (busy, on_time) in
            subst (Polled (round ∷ rounds) ch m) (sym e) (
              longer round rounds ch m t
                (poll rounds ch (uint (loop_count + 1)) (record m { trace = t })) (busy, on_time)
                (poll-Polled rounds ch (uint (loop_count + 1)) (record m { trace = t })))
      ]
    ]

-- What a wait by polling comes to: it goes on if all its rounds are busy; or it ends, by the status or, late,
-- with DMA_TIMEOUT, and either way what was saved of a list is put back.
abbrev pub Waited : WaitAnswer → ℕ → Machine → Option (Result (Unit {0}) × Machine) → Type 0
Waited k ch m result =
    ((result ≡ none) × All IsBusy k.rounds)
    ⊎ ((r : Result (Unit {0})) × (n : Machine) × (result ≡ some (r, n))
        × (((r ≡ ok tt) × IsDone k.rounds)
            ⊎ ((r ≡ err (dma_timeout (counted m.engine ch))) × IsLate k.rounds))
        × (n.engine ≡ put_back ch m.engine)
        × (n.dev ≡ m.dev))

wait_polls :
    (k : WaitAnswer) (ch : ℕ) (m : Machine)
    → m.engine.use_interrupts ≡ false
    → wait_channel k ch m ≡ (poll k.rounds ch 0 >> change_engine (put_back ch)) m
unfolding wait_channel
wait_polls k ch m polls =
    ap
      (λ b.
        ((if b then wait_by_interrupt k ch else poll k.rounds ch 0) >> change_engine (put_back ch))
          m)
      polls

pub wait_channel-Waited :
    (k : WaitAnswer) (ch : ℕ) (m : Machine)
    → m.engine.use_interrupts ≡ false
    → Waited k ch m (wait_channel k ch m)
wait_channel-Waited k ch m polls =
    let f = poll k.rounds ch 0 in
    let g = change_engine (put_back ch) in
    let e = wait_polls k ch m polls in
    elim (poll-Polled k.rounds ch 0 m) [
      | inl (waits, busy) ↦ inl (e ∙ bind-none f g m waits, busy)
      | inr (n, inl (over, same, ends), dev) ↦ inr (
        ok tt,
        record n { engine = put_back ch n.engine },
        e ∙ bind-ok f g m n over,
        inl (refl, ends),
        ap (put_back ch) same,
        dev,
      )
      | inr (n, inr (late, back, some_late), dev) ↦
          let x = dma_timeout (counted m.engine ch) in
          inr (err x, n, e ∙ bind-err f g m n x late, inr (refl, some_late), back, dev)
    ]
