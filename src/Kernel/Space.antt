-- ===== src/Kernel/Space.antt =====
-- boot/kernel/kernel.c 34 to 96, "Setting Paging": the page tables of the kernel, over the page
-- allocator of Kernel.Memory. The load of cr3 and the jump are not in it.
pub mod Stage
pub mod Possible
pub mod Steps
pub mod Mapped
use osfort.Base.{ℕ, ◌+◌, ◌*◌, ◌/◌, ◌^◌, u64}
use osfort.Memory.{Mem, load32}
use osfort.Acpi.{acpi_get_table, len_at, local_apic_addr_at}
use osfort.Paging.{page_size, Pages, req_page, lock_pages}
use osfort.Paging.Table.{map_page, map_pages}
use osfort.Paging.Table.Root.{cleared}
use osfort.Kernel.Memory.{MemoryMap, Totals, scan_map, kernel_pages, reserve_memory}

-- What the boot loader and the linker give: the frame buffer, the kernel's place in physical memory,
-- and the firmware's root table; and where the names "APIC" and "MCFG" lie.
pub record Machine : Type 0 where
  pub framebuffer_base : ℕ
  pub framebuffer_size : ℕ
  pub kernel_start : ℕ
  pub kernel_end : ℕ
  pub xsdt : ℕ
  pub apic_name : ℕ
  pub mcfg_name : ℕ

abbrev pub kernel_base : ℕ
kernel_base = 0x0000ffff00000000

abbrev pub memory_pages : Mem → MemoryMap → ℕ
memory_pages m mmap = (scan_map m mmap).total_mem_size / page_size

abbrev pub framebuffer_pages : Machine → ℕ
framebuffer_pages c = c.framebuffer_size / page_size + 1

abbrev pub image_pages : Machine → ℕ
image_pages c = kernel_pages c.kernel_start c.kernel_end

-- The root table, cleared.
unfoldable pub root_of : Mem → MemoryMap → Machine → Pages × ℕ
root_of m mmap c = cleared (req_page (reserve_memory m mmap c.kernel_start c.kernel_end))

-- As many pages from 0 on as all regions have are mapped to themselves, then the frame buffer, which is
-- locked before.
unfoldable pub map_memory : ℕ → Pages × ℕ → Pages
map_memory pages (s, pml4) = map_pages s pml4 0 0 pages

unfoldable pub map_framebuffer : Machine → ℕ → Pages → Pages
map_framebuffer c pml4 s =
    let s' = lock_pages s c.framebuffer_base (framebuffer_pages c) in
    map_pages s' pml4 c.framebuffer_base c.framebuffer_base (framebuffer_pages c)

unfoldable pub map_kernel : Machine → ℕ → Pages → Pages
map_kernel c pml4 s =
    map_pages s pml4 (u64 (kernel_base + c.kernel_start)) c.kernel_start (image_pages c)

-- The address that `madt` gives.
abbrev pub apic_base_of : Machine → Mem → ℕ
apic_base_of c m = load32 m (acpi_get_table m c.xsdt c.apic_name + local_apic_addr_at)

unfoldable pub map_apic : Machine → ℕ → Pages → Pages
map_apic c pml4 s = let apic_base = apic_base_of c s.mem in map_page s pml4 apic_base apic_base

abbrev pub mcfg_of : Machine → Mem → ℕ
mcfg_of c m = acpi_get_table m c.xsdt c.mcfg_name

abbrev pub mcfg_pages : Machine → Mem → ℕ
mcfg_pages c m = load32 m (mcfg_of c m + len_at) / page_size + 1

unfoldable pub map_mcfg : Machine → ℕ → Pages → Pages
map_mcfg c pml4 s = map_pages s pml4 (mcfg_of c s.mem) (mcfg_of c s.mem) (mcfg_pages c s.mem)

-- Up to the kernel, and to the end. The result is the state and pml4.
unfoldable pub map_image : Mem → MemoryMap → Machine → Pages
map_image m mmap c =
    let r = root_of m mmap c in
    map_kernel c r.1 (map_framebuffer c r.1 (map_memory (memory_pages m mmap) r))

unfoldable pub set_paging : Mem → MemoryMap → Machine → Pages × ℕ
set_paging m mmap c =
    let pml4 = (root_of m mmap c).1 in
    (map_mcfg c pml4 (map_apic c pml4 (map_image m mmap c)), pml4)
