-- ===== src/Mprace/Fill.antt =====
-- The making of a list of descriptors: DMADescriptorListWG.cpp, and `fillDescriptorList` of DMAEngineWG.cpp.
use fpga_pcie_drivers.Common.{
  ℕ, zero, suc, ◌+◌, ◌-◌, ◌*◌, ◌/◌, ◌%◌, ◌^◌, not, ◌&&◌, Option, none, some, get_or, ◌==◌, leb,
  if◌then◌else◌,
}
use fpga_pcie_drivers.Device.{SgEntry, uint, ulong}
use fpga_pcie_drivers.Cpp.Mapping.{UserMemory}
use fpga_pcie_drivers.Mprace.Descriptor.{
  Descriptor, set_host, set_peripheral, set_next, set_length, set_control,
}
use fpga_pcie_drivers.Mprace.Send.{DescriptorList, change}
use fpga_pcie_drivers.Mprace.Machine.{Memory, kernel, kernel_pieces, user}

-- `getSGentryAddress` and `getSGentrySize`; `beyond` is what lies behind the entries.
abbrev pub entry_address : SgEntry → UserMemory → ℕ → ℕ
entry_address beyond u i = (get_or u.sg i beyond).addr

abbrev pub entry_size : SgEntry → UserMemory → ℕ → ℕ
entry_size beyond u i = (get_or u.sg i beyond).size

-- `block`: descriptors that lie together, how many and at which bus address. Where they lie in the memory
-- of the process is left out: the descriptors of a list are known by their index.
pub record Block : Type 0 where
  pub size : ℕ
  pub pa : ℕ

-- the size of a descriptor, and how many a page holds
abbrev pub descriptor_size : ℕ
descriptor_size = 64

abbrev pub desc_per_page : ℕ
desc_per_page = 4096 / descriptor_size

unfoldable pub nr_blocks : ℕ → ℕ
nr_blocks n =
    let nr_pages = n / desc_per_page in if n % desc_per_page == 0 then nr_pages else nr_pages + 1

-- `init` for user memory: the blocks for `n` descriptors, in memory that is mapped without merging
unfoldable pub init : SgEntry → ℕ → UserMemory → ℕ → Block
init beyond n mapping i =
    let part = n % desc_per_page in
    record {
      size = if (i == nr_blocks n - 1) && not (part == 0) then part else desc_per_page;
      pa = entry_address beyond mapping i;
    }

-- `link` for `rounds` descriptors from the `i`th on
unfoldable pub link : ℕ → (ℕ → Block) → ℕ → ℕ → ℕ → DescriptorList → DescriptorList
link zero blocks i index count l = l
link (suc rounds) blocks i index count l =
    let full = leb (blocks index).size count in
    let cur_index = if full then index + 1 else index in
    let cur_count = if full then 0 else count in
    let pa = ulong ((blocks cur_index).pa + cur_count * descriptor_size) in
    link rounds blocks (i + 1) cur_index (cur_count + 1) (change i (λ d. record d { pa = pa }) l)

-- `DMADescriptorListWG` for a list in user memory; `junk` is what its new memory holds.
unfoldable pub new_list : SgEntry → (ℕ → Descriptor) → ℕ → UserMemory → DescriptorList
new_list beyond junk n mapping =
    link n (init beyond n mapping) 0 0 0 (record { size = n; at = junk })

-- what `fillDescriptorList` sets of a descriptor
abbrev pub filled : ℕ → ℕ → ℕ → Descriptor → Descriptor
filled address size next d =
    set_next next (set_peripheral 0 (set_control 0 (set_length size (set_host address d))))

-- the loop of `fillDescriptorList` for a user buffer, `rounds` from the `i`th descriptor on
unfoldable pub fill_user : ℕ → SgEntry → UserMemory → ℕ → DescriptorList → DescriptorList
fill_user zero beyond u i l = l
fill_user (suc rounds) beyond u i l =
    let next = if i == u.nents - 1 then 0 else (l.at (i + 1)).pa in
    fill_user rounds beyond u (i + 1)
      (change i (filled (entry_address beyond u i) (entry_size beyond u i) next) l)

-- the loop for a kernel buffer at the bus address `base`, in pieces of `step` bytes
unfoldable pub fill_pieces : ℕ → ℕ → ℕ → ℕ → ℕ → ℕ → ℕ → DescriptorList → DescriptorList
fill_pieces zero pieces base size step i count l = l
fill_pieces (suc rounds) pieces base size step i count l =
    let at_end = i == pieces - 1 in
    let len = if at_end then uint (size + 2 ^ 32 - count) else step in
    let next = if at_end then 0 else (l.at (i + 1)).pa in
    fill_pieces rounds pieces base size step (i + 1) (uint (count + step))
      (change i (filled (ulong (base + uint (i * step))) len next) l)

-- `fillDescriptorList` for a buffer of `size` bytes, none if it has no list. `pieces` is that of the buffer,
-- at least 1 if it is used; `mapping` and `junk` are of the memory that the list gets.
unfoldable pub fill_descriptor_list :
    SgEntry → (ℕ → Descriptor) → UserMemory → ℕ → ℕ → Memory → Option DescriptorList
fill_descriptor_list beyond junk mapping size pieces (kernel k) = none
fill_descriptor_list beyond junk mapping size pieces (kernel_pieces k) =
    some (
      fill_pieces pieces pieces k.pa size (size / pieces) 0 0 (new_list beyond junk pieces mapping))
fill_descriptor_list beyond junk mapping size pieces (user u) =
    some (fill_user u.nents beyond u 0 (new_list beyond junk u.nents mapping))
