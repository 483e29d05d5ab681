-- ===== src/Capi/Config.antt =====
-- The configuration space in pciDriver_Capi.c: `pd_readConfigByte` to `pd_writeConfigDWord`. Whether the
-- ioctl works is not looked at.
use fpga_pcie_drivers.Common.{ℕ, ◌%◌, ◌^◌, ◌≡◌, List, [], ◌∷◌, arith}
use fpga_pcie_drivers.Kernel.{Event, act, read_config, write_config}
use fpga_pcie_drivers.Ioctl.Config.{
  PciCfgCmd, cfg_sz_byte, cfg_sz_word, cfg_sz_dword, put_low, ioctl_pci_config_read_write,
}
use fpga_pcie_drivers.Common.{true, false}
use fpga_pcie_drivers.Capi.Process.{Process, stack, cfg_reply}

-- a read of the size `size`: the union after it; `junk` is the union before, and `v` what the device
-- holds at the address
abbrev pub read : ℕ → ℕ → ℕ → Process → ℕ → ℕ × List Event
read size v junk p addr =
    let cmd : PciCfgCmd = record { size = size; addr = addr; val = junk } in
    let (status, reply, d, calls) = ioctl_pci_config_read_write stack v true p.device cmd in
    ((cfg_reply reply cmd).val, calls)

-- `pd_readConfigByte`, `pd_readConfigWord` and `pd_readConfigDWord`
unfoldable pub pd_read_config_byte : ℕ → ℕ → Process → ℕ → ℕ × List Event
pd_read_config_byte v junk p addr =
    let (val, calls) = read cfg_sz_byte v junk p addr in (val % 2 ^ 8, calls)

unfoldable pub pd_read_config_word : ℕ → ℕ → Process → ℕ → ℕ × List Event
pd_read_config_word v junk p addr =
    let (val, calls) = read cfg_sz_word v junk p addr in (val % 2 ^ 16, calls)

unfoldable pub pd_read_config_dword : ℕ → ℕ → Process → ℕ → ℕ × List Event
pd_read_config_dword v junk p addr =
    let (val, calls) = read cfg_sz_dword v junk p addr in (val % 2 ^ 32, calls)

-- a write of the size `size`: the first `n` bytes of the union are set
abbrev pub written : ℕ → ℕ → ℕ → ℕ → Process → ℕ → ℕ × List Event
written size n val junk p addr =
    let cmd : PciCfgCmd = record { size = size; addr = addr; val = put_low n val junk } in
    let (status, reply, d, calls) = ioctl_pci_config_read_write stack 0 false p.device cmd in
    (0, calls)

-- `pd_writeConfigByte`, `pd_writeConfigWord` and `pd_writeConfigDWord`
unfoldable pub pd_write_config_byte : ℕ → Process → ℕ → ℕ → ℕ × List Event
pd_write_config_byte junk p addr val = written cfg_sz_byte 1 val junk p addr

unfoldable pub pd_write_config_word : ℕ → Process → ℕ → ℕ → ℕ × List Event
pd_write_config_word junk p addr val = written cfg_sz_word 2 val junk p addr

unfoldable pub pd_write_config_dword : ℕ → Process → ℕ → ℕ → ℕ × List Event
pd_write_config_dword junk p addr val = written cfg_sz_dword 4 val junk p addr

-- A read of a byte, a word or a double word gives what the device holds, cut to that size, whatever
-- was on the stack before; and a write passes the value, cut to that size, to the device: each by one
-- access of that size.
pub pd_read_config-pd_write_config :
    (v junk addr val : ℕ) (p : Process)
    → (pd_read_config_byte v junk p addr ≡ (v % 2 ^ 8, act (read_config 1 addr) ∷ []))
      × (pd_read_config_word v junk p addr ≡ (v % 2 ^ 16, act (read_config 2 addr) ∷ []))
      × (pd_read_config_dword v junk p addr ≡ (v % 2 ^ 32, act (read_config 4 addr) ∷ []))
      × (pd_write_config_byte junk p addr val ≡ (0, act (write_config 1 addr (val % 2 ^ 8)) ∷ []))
      × (pd_write_config_word junk p addr val ≡ (0, act (write_config 2 addr (val % 2 ^ 16)) ∷ []))
      × (pd_write_config_dword junk p addr val ≡ (0, act (write_config 4 addr (val % 2 ^ 32)) ∷ []))
unfolding pd_read_config_byte pd_read_config_word pd_read_config_dword pd_write_config_byte
    pd_write_config_word pd_write_config_dword ioctl_pci_config_read_write
pd_read_config-pd_write_config v junk addr val p = ground arith
