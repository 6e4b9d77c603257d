-- ===== src/Lib.antt =====
-- PRAID: a Linux kernel module that makes one block device of several NVMe disks and a verify disk
-- (README: "raid4"). The verify disk is kept up to date by a parity device, which the module itself
-- simulates as a PCI device behind reserved memory, and which a driver in the module feeds.
--
-- The parts, and how they work together:
-- - main.c checks the parameters, opens the lower disks, and starts and stops the other parts.
-- - block.c offers the array. It cuts each bio into bios of one chunk and sends a read to its disk;
--   in front of a write it asks the parity driver.
-- - pciedrv.c reads the old data in front of a write; its kworkers then copy the old and the new data
--   and the place of the job into the BAR and the storage of the device, one worker at a time by a
--   semaphore, which the interrupt handler of the device gives back.
-- - pci.c and device.c are the device. Its thread polls the registers; for each job it reads the old
--   parity, XORs in the old and the new data, writes the parity back and raises the interrupt.
--
-- The files:
-- - Common: the library's names, Boolean tests, lists, and laws of bits.
-- - Geometry: the constants and macros of praid.h and block.h; Geometry/Locate: their laws.
-- - Bio: `struct bio`, and the kernel's services on it as the interface `Kernel`.
-- - Pciedrv: pciedrv.c, `pcievdrv_submit_verify`; Pciedrv/Completion: `pciev_read_bio_endio` and
--   `add_verify_task`. A goto becomes a list of what is released. Pciedrv/Write, Pciedrv/Tasks
--   and Pciedrv/Read: a write on its way through both.
-- - Block: block.c, `vpciedisk_submit_bio`, as the list of calls that it makes; Block/Cover,
--   Block/Loop and Block/Submit: what these calls cover, a rule for the loop, and both together;
--   Block/View: the array as one disk; Block/InChunk: writes inside one chunk, and over its end;
--   Block/Capacity: its size in `create_block_device`; Block/Geo: its geometry.
-- - Device: the device, over memory that is a function from addresses to bytes. Device/Word: the
--   64-bit words of pciev.h; Device/Xor: the loop of pci.c, with Device/XorLoop;
--   Device/Start: the device when its thread starts; Device/Request:
--   pci.c, `pciev_submit_bio`, over the interface `Services`, with Device/Request/Laws;
--   Device/Dispatcher: pci.c, `pciev_dispatcher_clac_xor_single`, `pciev_signal_irq` and
--   `pciev_proc_bars`, and device.c, `pciev_dispatcher`, with Device/Dispatcher/Job and
--   Device/Dispatcher/Outcome; Device/Dispatcher/Computed: the bytes of a job;
--   Device/Irq: pci.c, `pciev_signal_irq` and its callees, in both kernel versions.
-- - Parity: the array as a whole, with the verify disk as the XOR of the data disks.
-- - Work: pciedrv.c, `do_verify_work`, by what it puts into the BAR and the storage;
--   Work/Outcome: all its branches, and the verify disk behind them.
-- - Protocol: pciedrv.c, `do_verify_work` and `pcievdrv_interrupt`, beside the device, as a relation
--   of steps; Protocol/Safety: who holds the permit; Protocol/Exclusion: what follows.
-- - System: both sides together: the workers of pciedrv.c and the dispatcher of pci.c, with the bytes
--   and registers that they share. System/Refine: the hand-over of Protocol; System/Areas: the five
--   areas of the BAR; System/Owned and System/Jobs: whose task they hold; System/Ledger and
--   System/Pays: the jobs that have ended and what they owe the verify disk; System/Parity: that disk;
--   System/Progress: a worker that waits can be served.
-- - Array: several writes on their way at once. Array/Order and Array/Ledger: the order of the jobs;
--   Array/Parity: the verify disk behind them; Array/Progress: their end; Array/Stale: two writes of
--   one place; Array/Queue, Array/Sequence and Array/Write: one write bio, from the parity driver to
--   the verify disk; Array/Bytes and Array/Submit: one write to the array, from block.c on.
-- - Pci: pci.h and pci.c, the configuration space. Pci/Field: how C lays out members and bit-fields;
--   Pci/Layout: the structs of pci.h; Pci/Settings: the settings of `PCIEV_PCI_INIT`; Pci/Found: what
--   a host finds; Pci/Space: the page as bytes; Pci/Access: `pciev_pci_read` and `pciev_pci_write`,
--   with Pci/Access/Digits, Pci/Access/Kept, Pci/Access/Flags and Pci/Access/Registers.
-- - Probe: pciedrv.c, `pcievdrv_probe` and `pcievdrv_remove`, and device.c, `__load_configs`;
--   Probe/Stages and Probe/Balance: what they hold; Probe/Shares: the memory that the driver and the
--   device share; Probe/Ids: `pcievdrv_get_configs`, with the identity that the driver is for.
-- - BioTest: biotest/main.c; ReadTest: readtest/main.c, with ReadTest/Lines for
--   what is printed, ReadTest/Outcome and ReadTest/Heads. Two modules for tests by hand.
-- - Config: main.c, `__validate_configs` and `__load_configs`, with Config/Laws.
-- - Disks: main.c, `nvme_blkdev_init` and `nvme_blkdev_final`, with Disks/Balance.
-- - Lifecycle: main.c, `vpcie_module_init` and `vpcie_module_exit`, over device.c, pci.c and block.c,
--   with Lifecycle/Balance.
-- - Tests: runs on small inputs, and each theorem at an input that meets its hypotheses.
--
-- A name of the source keeps its words; those of macros and of functions with capitals are in small
-- letters (`VDEV_INIT` is `vdev_init`, `PCIEV_init` is `pciev_init`).
--
-- Numbers: the offsets of the XOR loop (`uint64_t`), its words, the counters `io_num` and `io_done`
-- (`uint32_t`), the size of the array, and the addresses of the reserved memory, of the storage and
-- of what the driver maps wrap as in C. Sectors and sizes of disks are numbers without a bound,
-- since the block layer keeps them below the capacity of the array.
--
-- Constants of linux/pci_regs.h stand as the numbers that the PCI specification gives them. Bit-fields
-- lie as on x86: the first at the lowest digit, and none across a unit of its type.
--
-- Fuel: the split loop of block.c gets more fuel than the bio has sectors, since each round takes
-- at least one sector off; the XOR loop gets size / 8 + 2, one round more than a job of whole words
-- has. The loops with a fixed number of rounds take the number that is left. The thread of the device
-- is a round and a relation of steps, without a bound on the number of rounds.
--
-- The kernel is not in the repository and is a parameter: `Kernel` for bios and pages, with
-- `GivesPages` where every page is given and none merged into an entry, `Services`
-- for a transfer of the device, with `IsDisk` for what the block layer promises of a transfer that
-- it reports as done, the functions that answer an open, `PciAnswers` for probing, with `IsPlaced`
-- for the address that the kernel finds in the configuration space, `mapped` for the memory
-- map, and `Answers` for the two modules for tests by hand. An allocation that the driver does not
-- look at is taken to succeed; in biotest it can fail. After a `bug` or a `fault`, or after
-- `submit_bio` on an error pointer, a kernel thread goes no further, and the calls that the model
-- lists behind it are not made.
--
-- Not modelled: the iterators of bios, of which `segs` is what they walk through, but for the start of
-- the one in `pciev_read_bio_endio` (`walked`); entries of more than one page; the parsing of
-- numbers by the kernel, what is only printed to the log (but for readtest), the tables
-- of functions that are given to the kernel, nraid.h, which no file includes, and the build files.
mod Common
pub mod Geometry
pub mod Bio
pub mod Pciedrv
pub mod Block
pub mod Device
pub mod Parity
pub mod Work
pub mod Pci
pub mod Protocol
pub mod System
pub mod Array
pub mod Probe
pub mod BioTest
pub mod ReadTest
pub mod Config
pub mod Disks
pub mod Lifecycle
mod Tests
