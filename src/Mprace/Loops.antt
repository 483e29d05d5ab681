-- ===== src/Mprace/Loops.antt =====
-- The two loops of `sendDescriptorList`: where a transfer starts in the list, and where it ends.
use fpga_pcie_drivers.Common.{
  ℕ, zero, suc, ◌+◌, ◌-◌, ◌^◌, ◌≤◌, ◌<◌, ◌≡◌, ◌∙◌, refl, ap, true, false, arith, leb, ltb, ◌==◌,
  Bool-cases, inl, inr, if◌then◌else◌, drop,
}
use fpga_pcie_drivers.Device.{uint, ulong}
use fpga_pcie_drivers.Umem.Bytes.{bytes, total}
use fpga_pcie_drivers.Mprace.Descriptor.{host_address}
use fpga_pcie_drivers.Mprace.Send.{DescriptorList, find_start, find_last, usable}
use fpga_pcie_drivers.Mprace.Pieces.{pieces, drop-behind}

-- What the first loop finds: a descriptor, and how many of its bytes lie before the start, `ahead` bytes
-- behind the descriptor `i` of `n`.
pub record IsStart (n : ℕ) (l : DescriptorList) (i ahead : ℕ) (found : ℕ × ℕ) : Type 0 where
  pub behind : i ≤ found.0
  pub inside : found.0 < i + n
  pub within : found.1 ≤ (l.at found.0).length
  pub fewer : found.1 ≤ ahead
  pub same :
      drop ahead (bytes (pieces n l i)) ≡ drop found.1 (bytes (pieces (i + n - found.0) l found.0))
  pub left : total (pieces (i + n - found.0) l found.0) + ahead ≡ total (pieces n l i) + found.1

total_none : (n : ℕ) (l : DescriptorList) (i : ℕ) → n ≡ 0 → total (pieces n l i) ≡ 0
total_none zero l i e = refl
total_none (suc n) l i e = absurd (omega arith)

pub find_start-IsStart :
    (n : ℕ) (l : DescriptorList) (offset count i : ℕ)
    → 0 < n
    → count ≤ offset
    → offset ≤ count + total (pieces n l i)
    → count + total (pieces n l i) < 2 ^ 32
    → IsStart n l i (offset - count) (find_start n l offset count i)
unfolding find_start
find_start-IsStart zero l offset count i some_left behind room small = absurd (omega arith)
find_start-IsStart (suc n) l offset count i some_left behind room small =
    let len = (l.at i).length in
    let exact : ulong (count + len) ≡ count + len = omega arith in
    let exact' : uint (count + len) ≡ count + len = omega arith in
    elim (Bool-cases (ltb (count + len) offset)) [
      | inl more ↦
          rw (exact, exact', more)
            (let r =
                find_start-IsStart n l offset (count + len) (i + 1)
                  (ground (arith, total_none n l (i + 1))) (ground arith) (omega arith)
                  (omega arith) in
              let found = find_start n l offset (count + len) (i + 1) in
              let fewer : i + 1 + n - found.0 ≡ i + suc n - found.0 = omega arith in
              record {
                behind = omega (arith, r.behind);
                inside = omega (arith, r.inside);
                within = r.within;
                fewer = omega (arith, r.fewer);
                same =
                    drop-behind (host_address (l.at i)) len (offset - count)
                      (bytes (pieces n l (i + 1))) (ground arith)
                    ∙ ap (λ k. drop k (bytes (pieces n l (i + 1)))) (omega arith)
                    ∙ r.same
                    ∙ ap (λ k. drop found.1 (bytes (pieces k l found.0))) fewer;
                left =
                    let e = ap (λ k. total (pieces k l found.0)) fewer in
                    let past : count + len < offset = ground arith in
                    omega (arith, r.left, e, past);
              })
      | inr here ↦
          let e : uint (offset + 2 ^ 32 - count) ≡ offset - count = omega arith in
          let all : i + suc n - i ≡ suc n = omega arith in
          rw (exact, here, e)
            (record {
              behind = omega arith;
              inside = omega arith;
              within = ground arith;
              fewer = omega arith;
              same = rw all refl;
              left = rw all refl;
            })
    ]

-- one round of the second loop
pub find_last_goes_on :
    (n : ℕ) (l : DescriptorList) (init skip count i taken : ℕ)
    → usable l init skip i ≡ taken
    → leb count taken ≡ false
    → count < 2 ^ 32
    → find_last (suc n) l init skip count i ≡ find_last n l init skip (count - taken) (i + 1)
unfolding find_last
find_last_goes_on n l init skip count i taken e more small =
    let left : uint (count + 2 ^ 64 - taken) ≡ count - taken = ground arith in
    rw (e, more, left) refl

pub find_last_ends :
    (n : ℕ) (l : DescriptorList) (init skip count i taken : ℕ)
    → usable l init skip i ≡ taken
    → leb count taken ≡ true
    → find_last (suc n) l init skip count i ≡ (i, count, true)
unfolding find_last
find_last_ends n l init skip count i taken e fits = rw (e, fits) refl

pub find_last-ge :
    (n : ℕ) (l : DescriptorList) (init skip count i : ℕ) → i ≤ (find_last n l init skip count i).0
unfolding find_last
find_last-ge zero l init skip count i = omega arith
find_last-ge (suc n) l init skip count i =
    let taken = usable l init skip i in
    let rest = find_last-ge n l init skip (uint (count + 2 ^ 64 - taken)) (i + 1) in ground arith

pub find_last-small :
    (n : ℕ) (l : DescriptorList) (init skip count i : ℕ)
    → count < 2 ^ 32
    → (find_last n l init skip count i).1 < 2 ^ 32
unfolding find_last
find_last-small zero l init skip count i small = small
find_last-small (suc n) l init skip count i small =
    let taken = usable l init skip i in
    let rest =
      find_last-small n l init skip (uint (count + 2 ^ 64 - taken)) (i + 1) (omega arith) in
    ground arith

-- All bytes of descriptors that are not empty end in the last one.
pub find_last_all :
    (n : ℕ) (l : DescriptorList) (i : ℕ)
    → total (pieces (suc n) l i) < 2 ^ 32
    → ((j : ℕ) → j < i + suc n → 0 < (l.at j).length)
    → find_last (suc n) l 0 0 (total (pieces (suc n) l i)) i ≡ (i + n, (l.at (i + n)).length, true)
find_last_all zero l i small filled =
    let taken : usable l 0 0 i ≡ (l.at i).length = unfold usable in ground arith in
    find_last_ends zero l 0 0 (total (pieces 1 l i)) i (l.at i).length taken (ground arith)
    ∙ ap (λ m. (i, m, true)) {x = total (pieces 1 l i)} (omega arith)
    ∙ ap (λ k. (k, (l.at k).length, true)) {x = i} (omega arith)
find_last_all (suc n) l i small filled =
    let len = (l.at i).length in
    let taken : usable l 0 0 i ≡ len = unfold usable in ground arith in
    let next = filled (i + 1) (omega arith) in
    let left : total (pieces (suc (suc n)) l i) - len ≡ total (pieces (suc n) l (i + 1)) =
      omega arith in
    find_last_goes_on (suc n) l 0 0 (total (pieces (suc (suc n)) l i)) i len taken (ground arith)
      small
    ∙ ap (λ k. find_last (suc n) l 0 0 k (i + 1)) left
    ∙ find_last_all n l (i + 1) (omega arith) (λ j h. filled j (omega (arith, h)))
    ∙ ap (λ k. (k, (l.at k).length, true)) (omega arith)

-- What the second loop finds, if `count` bytes are wanted from the descriptor `i` of `n` on: a descriptor
-- in which they end.
pub find_last-fits :
    (n : ℕ) (l : DescriptorList) (init skip count i : ℕ)
    → 0 < count
    → count < 2 ^ 32
    → total (pieces n l i) < 2 ^ 32
    → (0 < n → (if i == init then skip else 0) ≤ (l.at i).length)
    → init ≤ i
    → count + (if i == init then skip else 0) ≤ total (pieces n l i)
    → (last : ℕ) × (rest : ℕ) × (find_last n l init skip count i ≡ (last, rest, true))
      × (i ≤ last)
      × (last < i + n)
unfolding find_last usable
find_last-fits zero l init skip count i pos small bound within ahead room = absurd (omega arith)
find_last-fits (suc n) l init skip count i pos small bound within ahead room =
    let len = (l.at i).length in
    let now = if i == init then skip else 0 in
    let enough = within (omega arith) in
    let taken : usable l init skip i ≡ len - now = ground arith in
    elim (Bool-cases (leb count (len - now))) [
      | inl fits ↦ (i, count, rw (taken, fits) refl, omega arith, omega arith)
      | inr more ↦
          let later : (i + 1 == init) ≡ false = ground arith in
          let (last, rest, found, low, high) =
            find_last-fits n l init skip (count - (len - now)) (i + 1) (ground arith) (omega arith)
              (omega arith) (λ p. rw later (omega arith)) (omega arith) (rw later (ground arith)) in
          (
            last,
            rest,
            find_last_goes_on n l init skip count i (len - now) taken more small ∙ found,
            omega (arith, low),
            omega (arith, high),
          )
    ]
