-- ===== src/Mprace/Whole.antt =====
-- `sendDescriptorList` for a whole buffer does what it does for a part that is the whole.
use fpga_pcie_drivers.Common.{
  ℕ, ◌+◌, ◌-◌, ◌*◌, ◌^◌, ◌<◌, ◌≡◌, refl, ap, ap₂, true, false, arith, ◌==◌, ==_iff, Bool-cases, inl,
  inr,
}
use mathlib.Core.Path.{fun_ext}
use fpga_pcie_drivers.Device.{uint, ulong}
use fpga_pcie_drivers.Mprace.Descriptor.{high, low}
use fpga_pcie_drivers.Mprace.Send.{
  DescriptorList, Channel, Sent, temp, send_found, send_whole, end_list, second_word,
}
use fpga_pcie_drivers.Mprace.Restore.{IsLinked, IsWords, reads}

-- A descriptor whose host address is moved by 0 bytes keeps its words.
host_same :
    (h l : ℕ)
    → h < 2 ^ 32
    → l < 2 ^ 32
    → (high (ulong (ulong (h * 2 ^ 32 + l) + 0)) ≡ h)
      × (low (ulong (ulong (h * 2 ^ 32 + l) + 0)) ≡ l)
host_same h l hb lb = omega arith

length_same : (n : ℕ) → n < 2 ^ 32 → (uint n ≡ n) × (uint (ulong (n + 2 ^ 64 - 0)) ≡ n)
length_same n small = omega arith

list_ext : (l m : DescriptorList) → l.size ≡ m.size → ((j : ℕ) → l.at j ≡ m.at j) → l ≡ m
list_ext l m size at = λ i. record { size = size i; at = fun_ext at i }

module _ (l : DescriptorList) (buf addr word : ℕ) (c : Channel) (linked : IsLinked l) where
  abbrev last : ℕ
  last = l.size - 1

  abbrev whole : Sent
  whole = send_whole buf addr word l c

  abbrev found : Sent
  found = send_found buf addr word 0 0 (last, (l.at last).length, true) l c

  top : uint (l.size + 2 ^ 32 - 1) ≡ l.size - 1
  top = let small = linked.small in let some_entry = linked.some_entry in omega arith

  at_last :
      (j : ℕ)
      → (j == last) ≡ true
      → IsWords (l.at j)
      → (l.at j).length ≡ (l.at last).length
      → (l.at j).next_bda_h ≡ 0
      → (l.at j).next_bda_l ≡ 0
      → whole.list.at j ≡ found.list.at j
  unfolding send_whole send_found end_list second_word
  at_last j a w len eh el =
      let (h, k) = host_same (l.at j).host_addr_h (l.at j).host_addr_l w.host_h w.host_l in
      let (n, m) = length_same (l.at j).length w.length in
      simp (reads, top, a, ← len, n) (ground arith)

  at_first :
      (j : ℕ)
      → (j == last) ≡ false
      → (j == 0) ≡ true
      → (j == 1) ≡ false
      → IsWords (l.at j)
      → whole.list.at j ≡ found.list.at j
  unfolding send_whole send_found end_list second_word
  at_first j a b c1 w =
      let (h, k) = host_same (l.at j).host_addr_h (l.at j).host_addr_l w.host_h w.host_l in
      let m = (length_same (l.at j).length w.length).1 in
      simp (reads, top, a, b, c1, h, k, m) (ground arith)

  between : (j : ℕ) → (j == last) ≡ false → (j == 0) ≡ false → whole.list.at j ≡ found.list.at j
  unfolding send_whole send_found end_list second_word
  between j a b = simp (reads, top, a, b) (ground arith)

  same_at : (j : ℕ) → whole.list.at j ≡ found.list.at j
  same_at j =
      let some_entry = linked.some_entry in
      elim (Bool-cases (j == last)) [
        | inl is_last ↦
            let e : j ≡ last = (==_iff _ _).0 is_last in
            at_last j is_last (linked.words j (omega (arith, e))) (ap (λ k. (l.at k).length) e)
              (rw e (linked.end_h)) (rw e (linked.end_l))
        | inr before ↦ elim (Bool-cases (j == 0)) [
          | inl is_first ↦ at_first j before is_first (ground arith) (linked.words j (ground arith))
          | inr other ↦ between j before other
        ]
      ]

  same_size : whole.list.size ≡ found.list.size
  unfolding send_whole send_found end_list second_word
  same_size = simp reads refl

  same_list : whole.list ≡ found.list
  same_list = list_ext whole.list found.list same_size same_at

  same_channel : whole.channel ≡ found.channel
  unfolding send_whole send_found
  same_channel = rw top refl

  same_first : whole.first ≡ found.first
  unfolding send_whole send_found
  same_first =
      let some_entry = linked.some_entry in
      let only : (l.size == 1) ≡ (0 == last) = ground arith in ap₂ (temp addr word) only (same_at 0)

  -- What is sent for a whole buffer is what is sent for all bytes of its descriptors.
  pub send_whole-send_found : whole ≡ found
  send_whole-send_found =
      λ i. record { list = same_list i; channel = same_channel i; first = same_first i }
