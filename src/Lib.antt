-- ===== src/Lib.antt =====
-- The PCIe drivers: the opencores kernel driver, opencores_driver/src/driver, with the C library over
-- it, opencores_driver/src/lib/pciDriver_Capi.c; and the second driver, creotech_driver. On top of the first stands the DMA engine of the boards, in fpga_framework/mprace.
--
-- The opencores driver gives user programs access to an FPGA board over PCI Express. It keeps for each device
-- a list of DMA buffers in kernel memory (kmem.c), a list of mapped regions of user memory (umem.c),
-- a counter of outstanding interrupts for each channel (int.c), and the mode in which mmap works.
-- Programs reach it by ioctl (ioctl.c) and mmap (base.c); the kernel calls it when the module is
-- loaded, when a device comes or goes (base.c), and on interrupts. The C library wraps the ioctls, and
-- guards the mode that it sets for mmap by a mutex. The second driver streams data from a card into
-- the two halves of one buffer, which a program maps and gets handed out in turn.
--
-- How the files correspond to the code:
-- - Kernel: return codes, the resources that are taken from the kernel, and traces of calls. The
--   kernel's code is not part of the repository: what a kernel function answers is an argument of
--   the operation that calls it (AllocAnswer, MapAnswer, ProbeAnswer, ...), and the call itself is
--   an event of the trace that the operation returns. So an operation is a function from answers and
--   the device's state to a status, the new state and a trace.
-- - Device: the structures of opencores_driver/include/driver/pciDriver.h and of common.h.
-- - Sysfs: the attributes of buffers and mappings, sysfs.c; Sysfs/Stores and Sysfs/Shows are the store
--   functions and the listings.
-- - Kmem: kmem.c; pcidriver_kmem_alloc is kmem_alloc, and so on. Kmem/Invariant, Kmem/Lookup and
--   Kmem/Cleanup are about the list, about finding buffers, and about what is given back;
--   Kmem/Refinement compares sequences of calls with a map.
-- - Umem/Pages, Umem/Map and Umem/Sglist: umem.c. The proofs are in Umem/Coverage (the pages of a
--   range), Umem/Pinned, Umem/Balance, Umem/Lifecycle and Umem/Roundtrip (what is taken and given
--   back), Umem/Merge, Umem/Bytes and Umem/Get (the list that a user gets), and Umem/Sync.
-- - Irq/Handler: the interrupt handler of int.c, which gives no result where
--   it would read through a null pointer. Irq/Wait and Irq/Waiters: the atomic operations of
--   ioctl_wait_interrupt and ioctl_clear_ioq, interleaved with the handler.
-- - Base: base.c with the setup of BARs and interrupts in int.c: Base/Bars, Base/Probe, Base/Module
--   and Base/Mmap; Base/Taken and Base/Undo are about what a probe takes, Base/History about
--   sequences of probes and removals.
-- - Ioctl: ioctl.c; Ioctl/Dispatch is pcidriver_ioctl. System/Life: ioctls, writes to attributes and
--   interrupts in any order, from the probe on.
-- - Capi: pciDriver_Capi.c; pd_allocKernelMemory is pd_alloc_kernel_memory, and so on. Capi/Process is
--   what a process has, Capi/Buffers, Capi/Mappings, Capi/Bars and Capi/Config the functions, each with
--   its proofs below it, and Capi/Pagemask the page's mask.
-- - Cpp: the classes of opencores_driver/src/lib: PciDevice.cpp is Cpp/Device, Cpp/Bars
--   and Cpp/Config, KernelMemory.cpp is Cpp/Buffer, and UserMemory.cpp is Cpp/Mapping. An exception that is thrown is a value.
-- - Mprace: fpga_framework/mprace, DMAEngineWG.cpp with the classes that it uses. Mprace/Descriptor is
--   DMADescriptorWG.h; Mprace/Send is sendDescriptorList up to the sending (prepare) and
--   restoreSavedData; Mprace/Fill is DMADescriptorListWG.cpp for user memory, and fillDescriptorList.
--   Mprace/Machine is the state, with DMABuffer::sync, and Mprace/Engine the registers,
--   waitChannel, host2board and board2host. An address of a buffer is a number, under which the
--   engine's state keeps the buffer's list. What a wait reads from the card, and whether it is late, is
--   an argument. The proofs are in Mprace/Restore (what restoreSavedData leaves), Mprace/Pieces,
--   Mprace/Loops and Mprace/Whole (the descriptors that are sent), Mprace/Chain and Mprace/Ready (the
--   chain that the card walks), Mprace/Found and Mprace/Prepared,
--   Mprace/Linked (where descriptors lie), Mprace/Filled, Mprace/Waiting, Mprace/Started and
--   Mprace/Transfers.
--   Mprace/Driver is PCIDriver.cpp, and Mprace/Retry about its loop for memory, which makes 20 tries.
--   Mprace/Abb is ABB.cpp, whose accesses to the board are a trace; Mprace/Blocks is about its
--   blocks, and Mprace/Patient about a transfer to the board.
-- - Creotech: creotech_driver/pcie.c, with pcie.h and pcie_ioctl.h: Creotech/Card (state and registers),
--   Creotech/Probe, Creotech/Stream (ioctls and the interrupt handler) and Creotech/File. The proofs
--   are in Creotech/Undo (what a probe takes), and Creotech/Transfers and Creotech/Halves (where the
--   card writes).
-- - Common: what the modules share. Each part's Tests run the theorems on concrete devices.
--
-- Bounds: a page has 4096 bytes, an unsigned long 64 bits, an int 32 bits, kept as a bit pattern;
-- wrap-around is written out, also that of the count of devices, about which Base/History speaks up to
-- 2^31. The code is read for kernels from 2.6.36 on, with ENABLE_IRQ. A range
-- of user memory is shorter than 2^42 bytes where its number of pages has to fit an int. Loops are
-- recursion on the lists that they walk, or on the number of their rounds; the loop of
-- pd_getpagemask has fuel for 32 rounds, as many as an int has bits. A waiting thread's rounds are a
-- list of the interrupts that arrive before each test, and it may still wait at the end of the list.
-- Where resources are balanced, they are counted under an arbitrary test on resources.
--
-- Not modelled: log messages; spinlocks, whose critical sections are single list operations; the
-- text of the show functions of sysfs.c; pcidriver_open and pcidriver_release; checks for null
-- pointers in the C library, and a failing posix_memalign or new; interrupts in the middle of an
-- ioctl of the second driver, but where it waits for them; the destructor of PciDevice and
-- pciDriver_compat.cpp. Of
-- fpga_framework: the making of buffers, and the release of buffers and lists of descriptors, the making of boards, and all of boards but the ABB,
-- timers and logs, and the Perl bindings; OLD_REGISTERS is taken as not defined.
pub mod Common
pub mod Kernel
pub mod Device
pub mod Sysfs
pub mod Kmem
pub mod Umem
pub mod System
pub mod Irq
pub mod Base
pub mod Ioctl
pub mod Capi
pub mod Cpp
pub mod Mprace
pub mod Creotech
