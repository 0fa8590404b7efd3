-- ===== src/Lib.antt =====
-- adaOS, a kernel for x86-64 that the Limine boot loader starts. `kernel/src/core.c` sets up the
-- parts one after the other; this library models that start, its memory managers, its drivers and
-- tables, and the handlers of its interrupts.
--
-- Parts:
-- - Base: the numbers, lists, tests and bits that all modules share; `Outcome` is what a call of
--   the kernel comes to: a value, a panic, a loop that used up its fuel, or what C leaves undefined.
-- - Core: `memcpy`, `mempcpy`, `memset`, `memmove` and `memcmp` of kernel/src/core.c, over a memory
--   that is a function from addresses to bytes; Core/Words reads and writes 64-bit words in it.
-- - Memory/Layout: the constants of kernel/src/memory/header/memmap.h, and `uint64_t` arithmetic,
--   which keeps its wrap-around.
-- - Memory/Map: the boot loader's memory map in order, kernel/src/memory/memmap.c, from which the
--   page allocator builds its chunks.
-- - Memory/Physical: the page allocator, kernel/src/memory/physical/pmm.c. `Pmm` has its static
--   variables; each function of the file is one definition of the same name, where `_pp_alloc` is
--   `pp_alloc_at` and `_pp_free` is `pp_free_at`; `setup_tables` is `setup_pmm` up to its
--   self-test. Bitmap, Search, Mappings, Alloc, Free, Chunks and Reserve hold what is proved.
-- - Memory/Virtual: the page tables, kernel/src/memory/virtual/vmm.c, which take the pages of their
--   tables from Memory/Physical. Walk is what the processor reads in them, Returning that a call
--   ends, and Source the page source that this gives to the heap.
-- - Memory/Heap: the heap, kernel/src/memory/heap.c. `Heap` has its static variables; the free list
--   lies in memory, as in C, with the size of a block at its address and the next pointer behind
--   it. Blocks says which list of blocks a memory stands for, Policy what first fit and giving
--   back do to such a list, and the other modules that the code does that. The pages that the heap
--   grows by come from `PageSource`, the one place where it meets the other memory managers. The
--   bytes of the heap and those of the page tables are two functions in the model, which assumes
--   that the pages of one are never pages of the other.
-- - Platform/Rtc: the date arithmetic of kernel/src/platform/x86_64/rtc.c, and in Rtc/Cmos the
--   registers of its clock. Platform/Descriptors: the encoded descriptors of gdt.c and idt.c beside
--   it.
-- - Platform/Acpi: the walk over the MADT of kernel/src/platform/x86_64/acpi.c. Acpi/Tables is the way
--   to it, from the RSDP on; the tables lie in a memory of their own, apart from the page tables.
-- - Platform/Pic, Platform/Pit, Platform/Apic and Platform/IoApic: pic.c, pit.c, apic.c and ioapic.c
--   beside it. A device is what it gives: writes are lists, and a read is a parameter, for the
--   registers in memory a function of the stores before it. A wait has a clock, which is what one
--   read of the ticks after the other gives.
-- - Platform/Cpuid, Platform/Ap and Platform/Msr: cpuid.c, ap.c and msr.c beside them.
-- - Util/Bits, Util/State and Util/Panic: kernel/src/util/bits.c, the flags of state.c, and the beeps of
--   panic.c beside it. In all other modules a panic is a result.
-- - Kmain: `kmain` of kernel/src/core.c, in the three phases `start_devices`, `start_memory` and
--   `start_controllers`, which are made of the setup functions of the other modules. `Environment`
--   has what the boot loader and the hardware give.
-- - Serial/Port: the bytes that kernel/src/driver/rs232.c writes, and its setup sequence.
--   Serial/Shell: the line editor of kernel/src/interupt/rs232_handler.c.
-- - Interrupt: the handlers of kernel/src/interupt (handler.c, pit_handler.c, apic_timer.c) and the
--   state of the kernel that they change.
-- - Crypt/Random: the generator of kernel/src/crypt/random.c. Util/Text: the string functions of
--   kernel/src/util/string.c. Util/Screen: cursor, scrolling and numbers of
--   kernel/src/util/print_lowlevel.c.
--
-- The boot loader's responses are `Boot`, a parameter; that they are present is assumed, since the
-- code panics without them.
--
-- Bounds and fuel: the arrays of chunks and of mappings have the code's lengths, 128 and 32, and a
-- write behind them is undefined. The search over the page mappings has fuel for two passes over `chunk_count + 2`
-- mappings. The walks over the free list have fuel for one block in 16 bytes of the heap, which is
-- its smallest size. `kmalloc` searches once more after each time that the heap has grown, and at
-- most one time for each page of the request and two more. The walk over the MADT has fuel for one
-- record in each byte, and `k_puti` for ten digits, which is what 32 bits have. The search for the
-- end of a string has its fuel as a parameter, since nothing in C bounds it. The
-- waits for ticks have a parameter too, which is enough when it is above the ticks of the wait times
-- the rounds that a tick takes at most. The loops over pages and bytes recur on the rounds that are
-- left.
--
-- Not modelled: log output; printf, which is a library, and the texts that it makes; the single
-- instructions of port.c and of the assembly files; the flush of cached translations; the register
-- IA32_EFER; `setup_multiproc`, which only logs; and the text of the banner of kernel/src/core.c.
pub mod Base
pub mod Core
pub mod Crypt
pub mod Interrupt
pub mod Kmain
pub mod Memory
pub mod Platform
pub mod Serial
pub mod Util
