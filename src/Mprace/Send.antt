-- ===== src/Mprace/Send.antt =====
-- `sendDescriptorList` and `restoreSavedData` of DMAEngineWG.cpp, on one list of descriptors.
use fpga_pcie_drivers.Common.{
  ℕ, zero, suc, ◌+◌, ◌-◌, ◌*◌, ◌^◌, ◌≡◌, refl, Bool, true, false, ◌&&◌, ◌==◌, ltb, leb,
  if◌then◌else◌,
}
use Prim.Native.Nat.{bit_or}
use fpga_pcie_drivers.Device.{uint, ulong}
use fpga_pcie_drivers.Mprace.Descriptor.{
  Descriptor, host_address, set_host, set_peripheral, set_next, set_length, set_control, ctrl_last,
  control_word, first_word,
}

-- `DMADescriptorListWG`: its number of descriptors, and the descriptors by their index.
pub record DescriptorList : Type 0 where
  pub size : ℕ
  pub at : ℕ → Descriptor

-- the list with `list[i]` changed by `f`
unfoldable pub change : ℕ → (Descriptor → Descriptor) → DescriptorList → DescriptorList
change i f l = record { size = l.size; at = λ j. if j == i then f (l.at j) else l.at j }

pub at-change :
    (i : ℕ) (f : Descriptor → Descriptor) (l : DescriptorList) (j : ℕ)
    → (change i f l).at j ≡ (if j == i then f (l.at j) else l.at j)
unfolding change
at-change i f l j = refl

pub size-change :
    (i : ℕ) (f : Descriptor → Descriptor) (l : DescriptorList) → (change i f l).size ≡ l.size
unfolding change
size-change i f l = refl

-- `saved_data_t`; `buf` is the buffer's address.
pub record SavedData : Type 0 where
  pub buf : ℕ
  pub init_descriptor : ℕ
  pub last_descriptor : ℕ
  pub offset : ℕ
  pub length : ℕ

-- `saved` and `saved_data` of a channel
pub record Channel : Type 0 where
  pub saved : Bool
  pub saved_data : SavedData

-- What is ready to be sent: the list, what is saved, and the descriptor for the channel's registers.
pub record Sent : Type 0 where
  pub list : DescriptorList
  pub channel : Channel
  pub first : Descriptor

-- the first loop, with the rounds that are left: `init_descriptor` and `block_offset`
unfoldable pub find_start : ℕ → DescriptorList → ℕ → ℕ → ℕ → ℕ × ℕ
find_start zero l byte_offset byte_count init = (init, 0)
find_start (suc n) l byte_offset byte_count init =
    let len = (l.at init).length in
    let rest = find_start n l byte_offset (uint (byte_count + len)) (init + 1) in
    if ltb (ulong (byte_count + len)) byte_offset
    then rest
    else (init, uint (byte_offset + 2 ^ 32 - byte_count))

-- the bytes of a descriptor that the transfer may take, `block_offset` from the first one
unfoldable pub usable : DescriptorList → ℕ → ℕ → ℕ → ℕ
usable l init block_offset i =
    if i == init then ulong ((l.at i).length + 2 ^ 64 - block_offset) else (l.at i).length

-- the second loop: `last_descriptor` and `byte_count`, and whether the bytes fitted
unfoldable pub find_last : ℕ → DescriptorList → ℕ → ℕ → ℕ → ℕ → ℕ × ℕ × Bool
find_last zero l init block_offset byte_count last = (last, byte_count, false)
find_last (suc n) l init block_offset byte_count last =
    let taken = usable l init block_offset last in
    let rest = find_last n l init block_offset (uint (byte_count + 2 ^ 64 - taken)) (last + 1) in
    if leb byte_count taken then (last, byte_count, true) else rest

-- `list[last]` as the end of the transfer, if the bytes fitted
unfoldable pub end_list : ℕ → ℕ → ℕ → Bool → DescriptorList → DescriptorList
end_list word last byte_count fits l =
    if fits
    then change last
        (λ d. set_control (bit_or word ctrl_last) (set_next 0 (set_length byte_count d))) l
    else l

-- the control word of the second descriptor
unfoldable pub second_word : ℕ → ℕ → ℕ → DescriptorList → DescriptorList
second_word word init last l =
    if ltb (init + 1) last then change (init + 1) (set_control word) l else l

-- `list[init]` without its first bytes
abbrev pub advance : ℕ → ℕ → ℕ → Descriptor → Descriptor
advance block_offset init last d =
    let moved = set_host (ulong (host_address d + block_offset)) d in
    if init == last then moved else set_length (ulong (d.length + 2 ^ 64 - block_offset)) moved

-- `temp`, a copy of a descriptor but for its own bus address, which it does not have
abbrev pub temp : ℕ → ℕ → Bool → Descriptor → Descriptor
temp addr word last d =
    set_control (first_word word last) (set_peripheral (uint (addr * 4)) (record d { pa = 0 }))

-- from the descriptors that were found on
unfoldable pub send_found : ℕ → ℕ → ℕ → ℕ → ℕ → ℕ × ℕ × Bool → DescriptorList → Channel → Sent
send_found buf addr word init block_offset (last, byte_count, fits) l c =
    let ready =
      change init (advance block_offset init last)
        (second_word word init last (end_list word last byte_count fits l)) in
    record {
      list = ready;
      channel =
          if fits
          then record {
            saved = true;
            saved_data = record {
              buf = buf;
              init_descriptor = init;
              last_descriptor = last;
              offset = block_offset;
              length = (l.at last).length;
            };
          }
          else c;
      first = temp addr word (init == last) (ready.at init);
    }

-- the part of a buffer: `count` words from the word `offset` on
unfoldable pub send_part : ℕ → ℕ → ℕ → ℕ → ℕ → DescriptorList → Channel → Sent
send_part buf addr word count offset l c =
    let (init, block_offset) =
      if offset == 0 then (0, 0) else find_start l.size l (uint (offset * 4)) 0 0 in
    send_found buf addr word init block_offset
      (find_last (l.size - init) l init block_offset (uint (count * 4)) init) l c

-- the whole buffer
unfoldable pub send_whole : ℕ → ℕ → ℕ → DescriptorList → Channel → Sent
send_whole buf addr word l c =
    let last = uint (l.size + 2 ^ 32 - 1) in
    let second = if ltb 2 l.size then change 1 (set_control word) l else l in
    let ready = change last (set_control (bit_or word ctrl_last)) second in
    record {
      list = ready;
      channel = record {
        saved = true;
        saved_data = record {
          buf = buf;
          init_descriptor = 0;
          last_descriptor = last;
          offset = 0;
          length = (l.at last).length;
        };
      };
      first = temp addr word (l.size == 1) (ready.at 0);
    }

-- `sendDescriptorList` up to the sending, for a buffer of `size` bytes
unfoldable pub prepare : ℕ → ℕ → ℕ → ℕ → ℕ → ℕ → Bool → DescriptorList → Channel → Sent
prepare buf size bar addr count offset inc l c =
    let word = control_word bar inc in
    if (offset == 0) && (uint (count * 4) == size)
    then send_whole buf addr word l c
    else send_part buf addr word count offset l c

-- `restoreSavedData`
unfoldable pub restore_saved_data : SavedData → DescriptorList → DescriptorList
restore_saved_data s l =
    let max_descriptor = uint (l.size + 2 ^ 32 - 1) in
    let moved_back = λ (d : Descriptor).
      set_length (ulong (d.length + s.offset))
        (set_host (ulong (host_address d + 2 ^ 64 - s.offset)) d) in
    let first = if s.offset == 0 then l else change s.init_descriptor moved_back l in
    let second =
      if s.init_descriptor == max_descriptor
      then first
      else change (uint (s.init_descriptor + 1)) (set_control 0) first in
    let next =
      if s.last_descriptor == max_descriptor
      then 0
      else (second.at (uint (s.last_descriptor + 1))).pa in
    change s.last_descriptor (λ d. set_next next (set_control 0 (set_length s.length d))) second
