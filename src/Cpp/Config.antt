-- ===== src/Cpp/Config.antt =====
-- The configuration space in PciDevice.cpp: `readConfigByte` to `writeConfigDWord`. Whether the ioctl
-- works is not looked at.
use fpga_pcie_drivers.Common.{
  ℕ, ◌%◌, ◌^◌, ◌≡◌, true, Option, none, some, List, [], ◌∷◌, arith, if◌then◌else◌,
}
use fpga_pcie_drivers.Kernel.{Event, act, read_config, write_config}
use fpga_pcie_drivers.Ioctl.Config.{
  cfg_sz_byte, cfg_sz_word, cfg_sz_dword, ioctl_pci_config_read_write,
}
use fpga_pcie_drivers.Capi.Config.{read, written}
use fpga_pcie_drivers.Cpp.Device.{Exception, not_open, Outcome, returns, throws, PciDevice}

-- `readConfigByte`, `readConfigWord` and `readConfigDWord`; `junk` is the union on the stack before, and
-- `v` what the device holds at the address
unfoldable pub read_config_byte : ℕ → ℕ → PciDevice → ℕ → Outcome ℕ × List Event
read_config_byte v junk dev addr =
    let (val, calls) = read cfg_sz_byte v junk dev.process addr in
    if dev.is_open then (returns (val % 2 ^ 8), calls) else (throws not_open, [])

unfoldable pub read_config_word : ℕ → ℕ → PciDevice → ℕ → Outcome ℕ × List Event
read_config_word v junk dev addr =
    let (val, calls) = read cfg_sz_word v junk dev.process addr in
    if dev.is_open then (returns (val % 2 ^ 16), calls) else (throws not_open, [])

unfoldable pub read_config_dword : ℕ → ℕ → PciDevice → ℕ → Outcome ℕ × List Event
read_config_dword v junk dev addr =
    let (val, calls) = read cfg_sz_dword v junk dev.process addr in
    if dev.is_open then (returns (val % 2 ^ 32), calls) else (throws not_open, [])

-- `writeConfigByte`, `writeConfigWord` and `writeConfigDWord`
unfoldable pub write_config_byte : ℕ → PciDevice → ℕ → ℕ → Option Exception × List Event
write_config_byte junk dev addr val =
    let (done, calls) = written cfg_sz_byte 1 val junk dev.process addr in
    if dev.is_open then (none, calls) else (some not_open, [])

unfoldable pub write_config_word : ℕ → PciDevice → ℕ → ℕ → Option Exception × List Event
write_config_word junk dev addr val =
    let (done, calls) = written cfg_sz_word 2 val junk dev.process addr in
    if dev.is_open then (none, calls) else (some not_open, [])

unfoldable pub write_config_dword : ℕ → PciDevice → ℕ → ℕ → Option Exception × List Event
write_config_dword junk dev addr val =
    let (done, calls) = written cfg_sz_dword 4 val junk dev.process addr in
    if dev.is_open then (none, calls) else (some not_open, [])

-- On an open device a read gives what the device holds, cut to the size of the read, and a write
-- passes the value on, cut to its size: each by one access of that size.
read_config-write_config :
    (v junk addr val : ℕ) (dev : PciDevice)
    → dev.is_open ≡ true
    → (read_config_byte v junk dev addr ≡ (returns (v % 2 ^ 8), act (read_config 1 addr) ∷ []))
      × (read_config_word v junk dev addr ≡ (returns (v % 2 ^ 16), act (read_config 2 addr) ∷ []))
      × (read_config_dword v junk dev addr ≡ (returns (v % 2 ^ 32), act (read_config 4 addr) ∷ []))
      × (write_config_byte junk dev addr val ≡ (none, act (write_config 1 addr (val % 2 ^ 8)) ∷ []))
      × (write_config_word junk dev addr val
          ≡ (none, act (write_config 2 addr (val % 2 ^ 16)) ∷ []))
      × (write_config_dword junk dev addr val
          ≡ (none, act (write_config 4 addr (val % 2 ^ 32)) ∷ []))
unfolding read_config_byte read_config_word read_config_dword write_config_byte write_config_word
    write_config_dword ioctl_pci_config_read_write
read_config-write_config v junk addr val dev opened = ground arith
