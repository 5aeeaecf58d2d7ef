-- ===== src/Lib.antt =====
-- OSFort, a kernel for x86-64 with its boot loader: the parts of the kernel that compute, modelled
-- from the C code, with what makes them correct.
--
-- The parts and their files. A path on the left is a file here, one on the right is in the repository.
--   Base            helpers: tests, lists, machine words, the bits of a number, bit fields of a word
--   Memory          byte memory with the little-endian accesses that the code's casts make
--   Sys/Str         sys/string.c: memcpy, memset, strncmp
--   Sys/Ctype       sys/ctype.c: the character classes, toupper, tolower
--   Bitmap          boot/kernel/bitmap.c: get_bitmap, set_bitmap
--   Paging          boot/kernel/paging.c: the page allocator, from free_page to req_page
--   Paging/Table    boot/kernel/paging.c: page table entries, map_page, map_pages, vir_to_phys
--   Pci             dev/pci/pcie.c and pcie.h: the list of configuration spaces, the header of one,
--                   the joining of split data
--   Nvme            dev/nvme/nvme.c: register fields, doorbells, the identify command
--   Print           boot/kernel/print.c: pow, itoa, hex, hexbyte
--   Print/Screen    boot/kernel/print.c: kputc, kputs, kprintf, clear_line, clear_screen
--   Print/Screen/Printed  boot/kernel/print.c: the text that kprintf puts out
--   Print/Font      boot/kernel/font.c: the glyphs and char_to_bitmap
--   Machine         inc/asm.c: outb, io_wait, rdmsr, wrmsr
--   Acpi            dev/acpi/acpi.c: acpi_get_table, acpi_set_apic_timer
--   Kernel/Memory   boot/kernel/kernel.c: the scan of the memory map, the set-up of the allocator
--   Kernel/Space    boot/kernel/kernel.c: the page tables of the kernel
--   Kernel/Controller  boot/kernel/kernel.c: the set-up of the NVMe controller
--   Kernel/Gdt      boot/kernel/gdt.c: the segments
--   Kernel/Idt      boot/kernel/idt.c, dev/pic/pic.h: set_idt and the handlers
--   Kernel/Syscall  boot/kernel/kernel.c and syscall.c: the set-up of system calls, their dispatch
--   Boot            boot/efi/bootloader.c: GUIDs, partitions, directories, inodes, files, root
--                   tables, ELF segments, the graphics mode
--   Tests           the theorems at concrete inputs
--
-- State. Memory is a function from addresses to bytes, and every operation that writes returns the
-- new one. The page allocator's state (Pages) is its record of counters and the memory with its bit
-- map; the page tables lie in the same memory. The NVMe driver's state (Nvme) is its static variables
-- and the memory. The screen's state (Graphics) is the cursor, the frame buffer's place and the
-- memory. Bytes written to ports are a list, the latest first, and model-specific registers a
-- function. The page allocator uses the bit map, map_page uses the allocator and memset, the driver
-- uses memset, and kputc reads a glyph through the bit map's get_bitmap. The kernel's start sets up
-- the allocator with memset, lock_pages and reserve_pages, and then its page tables with req_page,
-- map_pages and map_page, where acpi_get_table gives two of the places; set_idt takes a frame with req_page, and
-- its fault handlers use clear_screen and kputs; the set-up of the controller uses the driver's
-- fields; acpi_get_table uses strncmp; the loader's test of the ELF header and its comparison of
-- GUIDs use its memcmp.
--
-- Numbers. Numbers are native and unbounded; each wrap-around of a machine type is written out where
-- the code makes it. The places that a pointer is advanced to byte by byte are not reduced modulo 2 ^
-- 64.
--
-- Loops. Loops that count run on the number of rounds left. The loop of itoa that looks for the first
-- digit has a fuel of 20, for the powers 10 ^ 18 to 1 and the 0 after them. The wait of
-- nvme_command_identify runs over the list of memories that the controller gives. The wait of
-- acpi_set_apic_timer runs on fuel, of which one round is enough, and the search of a directory on
-- fuel, of which one round more than the number of the entry where it stops is enough, and none where
-- it stays at an entry.
--
-- Parameters. The NVMe controller is a function from the memory that the driver leaves to the
-- memories of the rounds of the wait; so it is where the kernel waits for it. vir_to_phys takes the
-- value of cr3, and the number of bits in which the compiler shifts the field addr, which is 40 with
-- gcc. What the ports give may depend on all that was written. The local APIC's registers are read
-- back from memory as they were written. The firmware's QueryMode, SetMode, ReadBlocks,
-- AllocatePages, EFI_ERROR and strncmpa are functions; what a theorem needs of them is among its
-- hypotheses. The addresses of the interrupt handlers are numbers of 64 bits.
--
-- Not modelled: the loader's choice of the disk, the flush of the TLB, memory barriers, delay loops,
-- and the instructions that load tables or stop the processor.
pub mod Base
pub mod Memory
pub mod Machine
pub mod Sys
pub mod Bitmap
pub mod Paging
pub mod Pci
pub mod Print
pub mod Nvme
pub mod Acpi
pub mod Boot
pub mod Kernel
pub mod Tests
