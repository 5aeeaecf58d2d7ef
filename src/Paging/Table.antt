-- ===== src/Paging/Table.antt =====
-- boot/kernel/paging.c and paging.h: page table entries, map_page, map_pages and vir_to_phys.
pub mod Entry
pub mod Invariant
pub mod Fresh
pub mod Extend
pub mod Place
pub mod Ensure
pub mod Map
pub mod Root
pub mod Lock
pub mod Chain
pub mod Run
pub mod Translate
use osfort.Base.{
  ℕ, zero, suc, ◌+◌, ◌*◌, ◌/◌, ◌%◌, ◌^◌, Bool, true, false, not, Option, none, some, if◌then◌else◌,
  truthy, bit_and, u64, ◌<<<◌, ◌>>>◌,
}
use osfort.Memory.{Mem, load64, store64}
use osfort.Sys.Str.{memset}
use osfort.Paging.{page_size, Pages, req_page}

pub record PageTableEntry : Type 0 where
  pub p : ℕ
  pub rw : ℕ
  pub us : ℕ
  pub pwt : ℕ
  pub pcd : ℕ
  pub a : ℕ
  pub avl0 : ℕ
  pub ps : ℕ
  pub avl1 : ℕ
  pub addr : ℕ
  pub avl2 : ℕ
  pub xd : ℕ

-- The packed bit fields as the 64-bit word that they fill from bit 0 up.
unfoldable pub encode : PageTableEntry → ℕ
encode e =
    e.p
    + 2 * e.rw
    + 2 ^ 2 * e.us
    + 2 ^ 3 * e.pwt
    + 2 ^ 4 * e.pcd
    + 2 ^ 5 * e.a
    + 2 ^ 6 * e.avl0
    + 2 ^ 7 * e.ps
    + 2 ^ 8 * e.avl1
    + 2 ^ 12 * e.addr
    + 2 ^ 52 * e.avl2
    + 2 ^ 63 * e.xd

unfoldable pub decode : ℕ → PageTableEntry
decode w = record {
  p = w % 2;
  rw = w / 2 % 2;
  us = w / 2 ^ 2 % 2;
  pwt = w / 2 ^ 3 % 2;
  pcd = w / 2 ^ 4 % 2;
  a = w / 2 ^ 5 % 2;
  avl0 = w / 2 ^ 6 % 2;
  ps = w / 2 ^ 7 % 2;
  avl1 = w / 2 ^ 8 % 2 ^ 4;
  addr = w / 2 ^ 12 % 2 ^ 40;
  avl2 = w / 2 ^ 52 % 2 ^ 11;
  xd = w / 2 ^ 63 % 2;
}

-- table->entries[i], read and written.
unfoldable pub read_entry : Mem → ℕ → ℕ → PageTableEntry
read_entry m table i = decode (load64 m (table + 8 * i))

unfoldable pub write_entry : Mem → ℕ → ℕ → PageTableEntry → Mem
write_entry m table i e = store64 m (table + 8 * i) (encode e)

abbrev pub zero_entry : PageTableEntry
zero_entry = record {
  p = 0;
  rw = 0;
  us = 0;
  pwt = 0;
  pcd = 0;
  a = 0;
  avl0 = 0;
  ps = 0;
  avl1 = 0;
  addr = 0;
  avl2 = 0;
  xd = 0;
}

-- A fresh table, cleared, and entry i of `table` pointed at it.
unfoldable pub make_table : Pages → ℕ → ℕ → Pages × ℕ
make_table s table i =
    let (s', page) = req_page s in
    let m = memset s'.mem page 0 page_size in
    let pe = record zero_entry { p = 1; rw = 1; addr = (page >>> 12) % 2 ^ 40 } in
    (record s' { mem = write_entry m table i pe }, page)

-- What map_page does at each of the three upper levels: the table under entry i of `table`, which is
-- made where the entry is not present.
unfoldable pub next_table : Pages → ℕ → ℕ → Pages × ℕ
next_table s table i =
    let pe = read_entry s.mem table i in
    if not (truthy pe.p) then make_table s table i else (s, u64 (pe.addr <<< 12))

abbrev pub index_at : ℕ → ℕ → ℕ
index_at vir_addr shift = bit_and (vir_addr >>> shift) 0x1ff

-- The last level: the entry of the page is pointed at the frame, its other fields kept.
unfoldable pub set_page : Pages → ℕ → ℕ → ℕ → Pages
set_page s pt i phys_addr =
    let pe = read_entry s.mem pt i in
    let pe' = record pe { p = 1; rw = 1; addr = (phys_addr >>> 12) % 2 ^ 40 } in
    record s { mem = write_entry s.mem pt i pe' }

unfoldable pub map_page : Pages → ℕ → ℕ → ℕ → Pages
map_page s pml4 vir_addr phys_addr =
    let (s1, pdpt) = next_table s pml4 (index_at vir_addr 39) in
    let (s2, pd) = next_table s1 pdpt (index_at vir_addr 30) in
    let (s3, pt) = next_table s2 pd (index_at vir_addr 21) in
    set_page s3 pt (index_at vir_addr 12) phys_addr

-- The loop of map_pages at round i with k rounds left.
unfoldable pub map_pages_from : ℕ → ℕ → Pages → ℕ → ℕ → ℕ → Pages
map_pages_from zero i s pml4 vir_addr phys_addr = s
map_pages_from (suc k) i s pml4 vir_addr phys_addr =
    map_pages_from k (i + 1)
      (map_page s pml4 (u64 (vir_addr + u64 (i * page_size)))
        (u64 (phys_addr + u64 (i * page_size))))
      pml4 vir_addr phys_addr

unfoldable pub map_pages : Pages → ℕ → ℕ → ℕ → ℕ → Pages
map_pages s pml4 vir_addr phys_addr page_cnt = map_pages_from page_cnt 0 s pml4 vir_addr phys_addr

-- `entries[i].addr << 12` with no cast: the compiler shifts the 40-bit field in a type of `width`
-- bits (gcc: 40; a compiler that widens the field: 64). `cr3` is the register's value.
abbrev pub field_shl : ℕ → ℕ → ℕ
field_shl width addr = (addr <<< 12) % 2 ^ width

unfoldable pub vir_to_phys : ℕ → Mem → ℕ → ℕ → ℕ
vir_to_phys width m cr3 vir_addr =
    let pdpt = field_shl width (read_entry m cr3 (index_at vir_addr 39)).addr in
    let pd = field_shl width (read_entry m pdpt (index_at vir_addr 30)).addr in
    let pt = field_shl width (read_entry m pd (index_at vir_addr 21)).addr in
    field_shl width (read_entry m pt (index_at vir_addr 12)).addr
