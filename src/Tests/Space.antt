-- ===== src/Tests/Space.antt =====
-- The set-up of paging on a machine with 48 pages of memory.
use osfort.Base.{◌==◌, if◌then◌else◌}
use osfort.Memory.{Mem}
use osfort.Kernel.Memory.{MemoryMap}
use osfort.Kernel.Space.{Machine}

-- The memory map at 0x100000 has one region, 48 free pages from 0x4000 on. The root table at 0x101000
-- lists "A" at 0x102000, with the local APIC at 0xfee00000, and "M" at 0x103000.
abbrev firmware : Mem
firmware x =
    if x == 0x100000
    then 7
    else if x == 0x100009
    then 0x40
    else if x == 0x100018
    then 48
    else if x == 0x101004
    then 52
    else if x == 0x101025
    then 0x20
    else if x == 0x101026
    then 0x10
    else if x == 0x10102d
    then 0x30
    else if x == 0x10102e
    then 0x10
    else if x == 0x102000
    then b'A'
    else if x == 0x102026
    then 0xe0
    else if x == 0x102027
    then 0xfe
    else if x == 0x103000
    then b'M'
    else if x == 0x103004
    then 60
    else if x == 0x104000
    then b'A'
    else if x == 0x105000
    then b'M'
    else 0

abbrev mmap : MemoryMap
mmap = record { map = 0x100000; size = 48; desc_size = 48 }

abbrev machine : Machine
machine = record {
  framebuffer_base = 0x800000;
  framebuffer_size = 0x1000;
  kernel_start = 0x8000;
  kernel_end = 0x8800;
  xsdt = 0x101000;
  apic_name = 0x104000;
  mcfg_name = 0x105000;
}
