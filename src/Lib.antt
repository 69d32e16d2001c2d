-- ===== src/Lib.antt =====
-- A verification library for WasabiOS, a small operating system kernel in Rust that runs as a
-- UEFI application on x86_64. It models the kernel's own logic, file by file, and proves what
-- each part promises. Paths are from the repository's root.
--
-- How the parts interact. The firmware hands over a memory map; init_basic_runtime (src/init.rs)
-- leaves the boot services with it and gives its free regions to the allocator
-- (src/allocator.rs). init_paging then takes boxes from the allocator for page tables
-- (src/x86.rs) and maps all memory to itself. init_exceptions builds the descriptor tables.
-- init_hpet finds the timer through the ACPI tables (src/acpi.rs) and starts it (src/hpet.rs).
-- The executor (src/executor.rs) then runs the tasks; the lock of src/mutex.rs guards the global
-- timer and writer. src/pci.rs probes the devices, src/graphics.rs draws on the frame buffer.
--
-- Common has the shared names: Tests (Boolean tests on numbers), Lists, Bits (the laws of the
-- masks that the code uses), Outcomes (Result, and Outcome, which has panic as a value) and Int
-- (signed numbers for i64 coordinates). Overflow checks are on, as in the profile that cargo run
-- builds, so an overflow of a checked operation is the value panic.
--
-- Allocator (src/allocator.rs): Header is a struct Header with its address, and the chain of
-- headers is a list in chain order. provide, carve, settle, alloc_with_options, dealloc,
-- add_free_from_descriptor and init_with_mmap keep their names or are the marked pieces of them.
-- Pow2, Carve and Provide describe one region, Alloc and Live the chain, Descriptor the memory
-- map, Contract all sequences of calls, Slack a region that is refused without need. Boxes are
-- the calls that Box::new makes, Boxed what they give, UnitTests the tests of alignments. Memory
-- is the same code over the bytes, with the layout of Header as a parameter: Bytes, Writes and
-- Carve are about single headers, Chain about the chain in memory, Provide, Refine, Free and Init
-- show that it does what the code on the list does, Trace is what a block's owner may rely on,
-- Blocks and Overlap the test that fills blocks and reads them again.
--
-- Uefi (src/uefi.rs): the memory map is bytes, read as repr(C) lays the descriptors out;
-- MemoryMap shows what the iteration sees, Config the search for the ACPI table, Exit the loop
-- that leaves the boot services, Protocols the lookup of the graphics and loaded-image protocols.
-- The firmware is the record Firmware. EfiStatus has only the value Success, in the source and
-- here, so no test of a status fails, and the exit loop ends in its first round.
--
-- Paging (src/x86.rs, Entry, Table and PML4): Machine is the memory of entries by table address
-- and index, and the boxes that Box::new will hand out; with none left the program ends. Walk
-- describes the processor's walk by arithmetic, and the tree of tables. Populate, Descend,
-- SetPage, MapPage and Round are the steps of one round of create_mapping, Supply counts the
-- boxes, Mapping is the whole call, NewTable the first table.
--
-- Init (src/init.rs): init_paging and the total of init_allocator, in Memory and Tables, and
-- init_basic_runtime, in Runtime, and init_display, in Display, init_hpet, in Devices, and
-- init_pci, in Bus; Boot is about the room that the memory map leaves for the boxes of the boot;
-- the display comes with the frame buffer that the firmware names.
--
-- Main (src/main.rs): Entry is efi_main up to its first reading of the clock, with the other
-- components in their order; Boot shows where it comes to, Load is about its call of
-- init_exceptions. The rest is the async blocks of efi_main as state machines with the executor;
-- Log says how printed numbers are spaced, Step and Progress are one poll, Spacing any number of
-- turns, Finish the turns up to the end of a task. Each poll of the serial task takes fuel.
--
-- Exceptions (src/x86.rs, from IdtAttr on): the descriptor tables, with the addresses of the
-- entry points as a parameter. Tables is about the entries, Gdt has the global descriptor table
-- and init_exceptions with the registers that it loads, Segments what the processor finds through
-- them.
--
-- Interrupts (src/x86.rs, interrupt_entrypoint! to inthandler_common): the instructions of the
-- entry points run on a machine with registers, a stack pointer and memory by words; inthandler
-- is a parameter that keeps to its calling convention. Info has the records that it is given,
-- Stack what pushes leave in memory, Layout where the frame lies at the call, Frame what is
-- restored after it. iretq is left out.
--
-- Acpi (src/acpi.rs): memory is a function to bytes. Hpet (src/hpet.rs): registers as a record;
-- the 32 timers as a function of the index, with the bound tested on each access. Mutex
-- (src/mutex.rs): Lock is the loop of lock with the other threads as a parameter, Exclusion the
-- interleavings of threads. Executor (src/executor.rs): futures are given by a poll function over
-- a state; Queue is the loop of run, Futures the two futures of the module. Pci (src/pci.rs):
-- ids, registers and the probe; the MCFG table, which the repository uses and does not define, is
-- a parameter. Graphics (src/graphics.rs): a bitmap with the sizes of VramBufferInfo. Painted
-- says which pixels differ between two bitmaps; Rect, Slope, Geometry, FlatLine and Line are
-- about rectangles and lines, Font about the parser of font.txt, whose text is a parameter, and
-- Text about characters, the text writer (Grid, Cell, Writer) and the test pattern (Pattern).
--
-- Serial (src/serial.rs): the device behind the ports is a parameter with the laws of Uart, and
-- the port numbers, all of COM1, are far from the end of u16, so their sums are plain; Send and
-- Loopback use them. Print (src/print.rs): Global prints to both outputs; Chunks, Dump, Hex and
-- Lines describe the lines of a dump, whose offset is an i32. Text is formatted already.
--
-- Bounds and fuel. The loops with an end are recursion on the number of rounds left. The
-- iterations of Uefi and Acpi, the probe of Pci, block_on, the wait of the serial port and the
-- exit from the boot services take fuel, and their theorems name an amount that is enough. run
-- has no end; its theorems are about n rounds. Pointers are numbers; volatile accesses are plain
-- ones.
--
-- Not modelled: src/qemu.rs and src/test_runner.rs, which are glue, the formatting macros and
-- what src/main.rs prints with them, and the loads of control registers.
pub mod Common
pub mod Uefi
pub mod Allocator
pub mod Paging
pub mod Init
pub mod Pci
pub mod Graphics
pub mod Mutex
pub mod Executor
pub mod Hpet
pub mod Acpi
pub mod Exceptions
pub mod Interrupts
pub mod Serial
pub mod Print
pub mod Main
