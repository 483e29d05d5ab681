-- ===== src/Mprace/Restore.antt =====
-- `restoreSavedData` of DMAEngineWG.cpp after `sendDescriptorList`.
use fpga_pcie_drivers.Common.{
  ℕ, ◌+◌, ◌-◌, ◌*◌, ◌/◌, ◌%◌, ◌^◌, ◌≤◌, ◌<◌, ◌≡◌, refl, Bool, true, false, arith, ltb,
  if◌then◌else◌, ◌==◌, ==_iff, Bool-cases, inl, inr,
}
use fpga_pcie_drivers.Device.{uint, ulong}
use fpga_pcie_drivers.Mprace.Descriptor.{Descriptor, host_address, high, low, set_host, set_length}
use fpga_pcie_drivers.Mprace.Send.{
  DescriptorList, Channel, Sent, SavedData, send_found, send_whole, end_list, second_word,
  restore_saved_data, at-change, size-change,
}

-- The fields of a descriptor are words, and its own address has 64 bits.
pub record IsWords (d : Descriptor) : Type 0 where
  pub host_h : d.host_addr_h < 2 ^ 32
  pub host_l : d.host_addr_l < 2 ^ 32
  pub length : d.length < 2 ^ 32
  pub address : d.pa < 2 ^ 64

-- A list at rest: each descriptor leads to the one behind it, and the last one to none.
pub record IsLinked (l : DescriptorList) : Type 0 where
  pub some_entry : 0 < l.size
  pub small : l.size < 2 ^ 32
  pub words : (j : ℕ) → j < l.size → IsWords (l.at j)
  pub idle : (j : ℕ) → j < l.size → (l.at j).control ≡ 0
  pub next_h : (j : ℕ) → j + 1 < l.size → (l.at j).next_bda_h ≡ (l.at (j + 1)).pa / 2 ^ 32
  pub next_l : (j : ℕ) → j + 1 < l.size → (l.at j).next_bda_l ≡ (l.at (j + 1)).pa % 2 ^ 32
  pub end_h : (l.at (l.size - 1)).next_bda_h ≡ 0
  pub end_l : (l.at (l.size - 1)).next_bda_l ≡ 0

-- a descriptor that has lost its first bytes and gets them back
moved_back : ℕ → ℕ → Descriptor → Descriptor
moved_back block_offset length d =
    set_length length (set_host (ulong (host_address d + 2 ^ 64 - block_offset)) d)

host_back :
    (h l off : ℕ)
    → h < 2 ^ 32
    → l < 2 ^ 32
    → off < 2 ^ 32
    → (high (
          ulong (
            ulong (
              high (ulong (ulong (h * 2 ^ 32 + l) + off)) * 2 ^ 32
              + low (ulong (ulong (h * 2 ^ 32 + l) + off)))
            + 2 ^ 64
            - off))
        ≡ h)
      × (low (
            ulong (
              ulong (
                high (ulong (ulong (h * 2 ^ 32 + l) + off)) * 2 ^ 32
                + low (ulong (ulong (h * 2 ^ 32 + l) + off)))
              + 2 ^ 64
              - off))
          ≡ l)
host_back h l off hb lb ob = omega arith

length_back :
    (n off : ℕ) → n < 2 ^ 32 → off ≤ n → uint (ulong (uint (ulong (n + 2 ^ 64 - off)) + off)) ≡ n
length_back n off small within = omega arith

word_lem : (n : ℕ) → n < 2 ^ 32 → uint n ≡ n
word_lem n small = omega arith

pub at-if :
    (b : Bool) (l m : DescriptorList) (j : ℕ)
    → (if b then l else m).at j ≡ (if b then l.at j else m.at j)
at-if true l m j = refl
at-if false l m j = refl

pub size-if :
    (b : Bool) (l m : DescriptorList) → (if b then l else m).size ≡ (if b then l.size else m.size)
size-if true l m = refl
size-if false l m = refl

pub if-same {ℓ} : {A : Type ℓ} (b : Bool) (x : A) → (if b then x else x) ≡ x
if-same true x = refl
if-same false x = refl

pub ruleset reads = (at-change, size-change, at-if, size-if, if-same)

module _ (l : DescriptorList) (buf addr word init last block_offset byte_count : ℕ)
    (c : Channel) where
  abbrev sent : Sent
  sent = send_found buf addr word init block_offset (last, byte_count, true) l c

  abbrev back : DescriptorList
  back = restore_saved_data sent.channel.saved_data sent.list

  elsewhere :
      (j : ℕ)
      → (j == init) ≡ false
      → (j == init + 1) ≡ false
      → (j == last) ≡ false
      → uint (init + 1) ≡ init + 1
      → back.at j ≡ l.at j
  unfolding restore_saved_data send_found end_list second_word
  elsewhere j a b e next = simp (reads, next, a, b, e) refl

  -- the descriptor behind the first one, where it is not the last one
  at_second :
      uint (l.size + 2 ^ 32 - 1) ≡ l.size - 1
      → uint (init + 1) ≡ init + 1
      → (init + 1 == init) ≡ false
      → (init + 1 == init + 1) ≡ true
      → (init + 1 == last) ≡ false
      → (init == l.size - 1) ≡ false
      → (l.at (init + 1)).control ≡ 0
      → back.at (init + 1) ≡ l.at (init + 1)
  unfolding restore_saved_data send_found end_list second_word
  at_second top next a b e more idle = simp (reads, next, a, b, e, top, more) (ground arith)

  at_last :
      uint (l.size + 2 ^ 32 - 1) ≡ l.size - 1
      → uint (init + 1) ≡ init + 1
      → uint (last + 1) ≡ last + 1
      → (last == init) ≡ false
      → (last == last) ≡ true
      → (last + 1 == init) ≡ false
      → (last + 1 == init + 1) ≡ false
      → (last + 1 == last) ≡ false
      → uint (l.at last).length ≡ (l.at last).length
      → (l.at last).control ≡ 0
      → (l.at last).next_bda_h ≡ high (if last == l.size - 1 then 0 else (l.at (last + 1)).pa)
      → (l.at last).next_bda_l ≡ low (if last == l.size - 1 then 0 else (l.at (last + 1)).pa)
      → back.at last ≡ l.at last
  unfolding restore_saved_data send_found end_list second_word
  at_last top next after a b c1 c2 c3 len idle nh nl =
      simp (reads, next, after, a, b, c1, c2, c3, top, len) (ground arith)

  at_init :
      uint (l.size + 2 ^ 32 - 1) ≡ l.size - 1
      → uint (init + 1) ≡ init + 1
      → (init == last) ≡ false
      → (init == init) ≡ true
      → (init == init + 1) ≡ false
      → IsWords (l.at init)
      → block_offset ≤ (l.at init).length
      → back.at init ≡ l.at init
  unfolding restore_saved_data send_found end_list second_word
  at_init top next a b c1 w within =
      let (h, k) =
        host_back (l.at init).host_addr_h (l.at init).host_addr_l block_offset w.host_h w.host_l
          (omega (arith, w.length)) in
      let n = length_back (l.at init).length block_offset w.length within in
      simp (reads, next, a, b, c1, top, h, k, n) (ground arith)

  at_only :
      uint (l.size + 2 ^ 32 - 1) ≡ l.size - 1
      → uint (init + 1) ≡ init + 1
      → uint (last + 1) ≡ last + 1
      → (init == last) ≡ true
      → (last == init) ≡ true
      → (last == last) ≡ true
      → (last == init + 1) ≡ false
      → (last + 1 == init) ≡ false
      → (last + 1 == init + 1) ≡ true
      → (last + 1 == last) ≡ false
      → ltb (init + 1) last ≡ false
      → IsWords (l.at last)
      → block_offset ≤ (l.at last).length
      → (l.at last).control ≡ 0
      → (l.at last).next_bda_h ≡ high (if last == l.size - 1 then 0 else (l.at (last + 1)).pa)
      → (l.at last).next_bda_l ≡ low (if last == l.size - 1 then 0 else (l.at (last + 1)).pa)
      → back.at last ≡ l.at last
  unfolding restore_saved_data send_found end_list second_word
  at_only top next after same a b c0 c1 c2 c3 t w within idle nh nl =
      let (h, k) =
        host_back (l.at last).host_addr_h (l.at last).host_addr_l block_offset w.host_h w.host_l
          (omega (arith, w.length)) in
      let len = word_lem (l.at last).length w.length in
      simp (reads, next, after, same, a, b, c0, c1, c2, c3, t, top, h, k, len) (ground arith)

link_high :
    (l : DescriptorList) (j : ℕ)
    → IsLinked l
    → j < l.size
    → (l.at j).next_bda_h ≡ high (if j == l.size - 1 then 0 else (l.at (j + 1)).pa)
link_high l j linked here = elim (Bool-cases (j == l.size - 1)) [
  | inl at_end ↦ rw at_end (rw ((==_iff _ _).0 at_end) linked.end_h)
  | inr before ↦
      let w = linked.words (j + 1) (ground arith) in
      let n = linked.next_h j (ground arith) in rw before (omega (arith, n, w.address))
]

link_low :
    (l : DescriptorList) (j : ℕ)
    → IsLinked l
    → j < l.size
    → (l.at j).next_bda_l ≡ low (if j == l.size - 1 then 0 else (l.at (j + 1)).pa)
link_low l j linked here = elim (Bool-cases (j == l.size - 1)) [
  | inl at_end ↦ rw at_end (rw ((==_iff _ _).0 at_end) linked.end_l)
  | inr before ↦ let n = linked.next_l j (ground arith) in rw before n
]

-- With `fits` the descriptors that were changed for a transfer are as they were.
pub restore-send_found :
    (l : DescriptorList) (buf addr word init last block_offset byte_count : ℕ) (c : Channel) (j : ℕ)
    → IsLinked l
    → init ≤ last
    → last < l.size
    → block_offset ≤ (l.at init).length
    → j < l.size
    → (back l buf addr word init last block_offset byte_count c).at j ≡ l.at j
restore-send_found l buf addr word init last block_offset byte_count c j linked ordered inside
      within here =
    let small = linked.small in
    let top : uint (l.size + 2 ^ 32 - 1) ≡ l.size - 1 = omega (arith, linked.some_entry) in
    let next : uint (init + 1) ≡ init + 1 = omega arith in
    let after : uint (last + 1) ≡ last + 1 = omega arith in
    let nh = link_high l last linked inside in
    let nl = link_low l last linked inside in
    elim (Bool-cases (j == last)) [
      | inl is_end ↦ rw ((==_iff _ _).0 is_end) (elim (Bool-cases (init == last)) [
        | inl same ↦
            let e : init ≡ last = (==_iff _ _).0 same in
            let within' : block_offset ≤ (l.at last).length = rw (← e) within in
            at_only l buf addr word init last block_offset byte_count c top next after same
              (ground arith) (ground arith) (ground arith) (ground arith) (ground arith)
              (ground arith) (ground arith) (linked.words last inside) within'
              (linked.idle last inside) nh nl
        | inr apart ↦
            at_last l buf addr word init last block_offset byte_count c top next after
              (ground arith) (ground arith) (ground arith) (ground arith) (ground arith)
              (word_lem (l.at last).length (linked.words last inside).length)
              (linked.idle last inside) nh nl
      ])
      | inr not_end ↦ elim (Bool-cases (j == init)) [
        | inl is_start ↦ rw ((==_iff _ _).0 is_start) (
            at_init l buf addr word init last block_offset byte_count c top next (ground arith)
              (ground arith) (ground arith) (linked.words init (omega arith)) within)
        | inr not_start ↦ elim (Bool-cases (j == init + 1)) [
          | inl is_second ↦
              let e : j ≡ init + 1 = (==_iff _ _).0 is_second in
              rw e (
                at_second l buf addr word init last block_offset byte_count c top next
                  (ground arith) (ground arith) (ground arith) (ground arith)
                  (linked.idle (init + 1) (omega (arith, e))))
          | inr other ↦
              elsewhere l buf addr word init last block_offset byte_count c j not_start other
                not_end next
        ]
      ]
    ]
