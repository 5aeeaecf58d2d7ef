-- ===== src/Kernel/Memory.antt =====
-- boot/kernel/kernel.c, "Setting Paging", up to the reservation of the kernel: the firmware's memory
-- map is scanned, and the page allocator is set up over it.
pub mod Scan
pub mod Marking
pub mod Reserved
use osfort.Base.{ℕ, zero, suc, ◌+◌, ◌*◌, ◌/◌, if◌then◌else◌, ◌==◌, ltb, u64, sub64}
use osfort.Memory.{Mem, load32, load64}
use osfort.Sys.Str.{memset}
use osfort.Paging.{page_size, Pages, lock_pages, reserve_pages}

-- MEMORY_DESCRIPTOR, as far as the kernel reads it.
pub record MemoryDescriptor : Type 0 where
  pub kind : ℕ
  pub phys_addr : ℕ
  pub num_pages : ℕ

pub record MemoryMap : Type 0 where
  pub map : ℕ
  pub size : ℕ
  pub desc_size : ℕ

-- Entry i of the map, wherever the firmware's descriptor size puts it.
unfoldable pub descriptor : Mem → MemoryMap → ℕ → MemoryDescriptor
descriptor m mmap i =
    let at = u64 (mmap.map + u64 (mmap.desc_size * i)) in
    record { kind = load32 m at; phys_addr = load64 m (at + 8); num_pages = load64 m (at + 24) }

abbrev pub bytes_of : MemoryDescriptor → ℕ
bytes_of d = u64 (d.num_pages * page_size)

-- EfiConventionalMemory.
abbrev pub conventional : ℕ
conventional = 7

-- The local variables of the first loop.
pub record Totals : Type 0 where
  pub largest_desc : ℕ
  pub largest_desc_size : ℕ
  pub total_mem_size : ℕ

unfoldable pub scan_step : Totals → MemoryDescriptor → Totals
scan_step t d =
    let t' = record t { total_mem_size = u64 (t.total_mem_size + bytes_of d) } in
    if d.kind == conventional
    then if ltb t.largest_desc_size (bytes_of d)
      then record t' { largest_desc = d.phys_addr; largest_desc_size = bytes_of d }
      else t'
    else t'

-- The first loop at entry i with k entries left.
unfoldable pub scan_from : ℕ → ℕ → Mem → MemoryMap → Totals → Totals
scan_from zero i m mmap t = t
scan_from (suc k) i m mmap t = scan_from k (i + 1) m mmap (scan_step t (descriptor m mmap i))

abbrev pub entries : MemoryMap → ℕ
entries mmap = mmap.size / mmap.desc_size

abbrev pub no_totals : Totals
no_totals = record { largest_desc = 0; largest_desc_size = 0; total_mem_size = 0 }

unfoldable pub scan_map : Mem → MemoryMap → Totals
scan_map m mmap = scan_from (entries mmap) 0 m mmap no_totals

-- The allocator over the cleared map, which lies in the largest region. Its other counters start at 0.
unfoldable pub init_pages : Mem → Totals → Pages
init_pages m t =
    let size = u64 (t.total_mem_size / page_size / 8 + 1) in
    record {
      page_bitmap = record {
        bitmap = record { buffer = t.largest_desc; size = size };
        free = t.total_mem_size;
        reserved = 0;
        used = 0;
      };
      mem = memset m t.largest_desc 0 size;
    }

-- What is not conventional memory is reserved.
unfoldable pub reserve_region : Pages → MemoryDescriptor → Pages
reserve_region s d = if d.kind == conventional then s else reserve_pages s d.phys_addr d.num_pages

-- The second loop at entry i with k entries left.
unfoldable pub reserve_from : ℕ → ℕ → MemoryMap → Pages → Pages
reserve_from zero i mmap s = s
reserve_from (suc k) i mmap s =
    reserve_from k (i + 1) mmap (reserve_region s (descriptor s.mem mmap i))

abbrev pub kernel_pages : ℕ → ℕ → ℕ
kernel_pages kernel_start kernel_end = sub64 kernel_end kernel_start / page_size + 1

-- From the scan to the reservation of the kernel, which lies at [kernel_start, kernel_end).
unfoldable pub reserve_memory : Mem → MemoryMap → ℕ → ℕ → Pages
reserve_memory m mmap kernel_start kernel_end =
    let s = init_pages m (scan_map m mmap) in
    let b = s.page_bitmap.bitmap in
    let s1 = lock_pages s b.buffer (b.size / page_size + 1) in
    let s2 = reserve_from (entries mmap) 0 mmap s1 in
    reserve_pages s2 kernel_start (kernel_pages kernel_start kernel_end)
