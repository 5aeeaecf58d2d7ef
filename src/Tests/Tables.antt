-- ===== src/Tests/Tables.antt =====
-- The page allocator and the page tables at concrete inputs.
use osfort.Base.{
  ℕ, zero, suc, ◌+◌, ◌*◌, ◌/◌, ◌%◌, ◌^◌, ◌≡◌, ◌≢◌, ◌≤◌, ◌==◌, inr, false, refl, ap, ◌∙◌,
  if◌then◌else◌, truthy, sub64, arith,
}
use osfort.Memory.{Mem, load8, load64, load_bytes}
use osfort.Memory.Laws.{load_bytes_ext}
use osfort.Bitmap.{get_bitmap}
use osfort.Paging.{
  page_size, Pages, free_page, lock_page, unreserve_page, reserve_page, free_pages, lock_pages,
  unreserve_pages, reserve_pages, req_page,
}
use osfort.Paging.Account.{
  marked, IsAccounted, page_ops-IsAccounted, pages_ops-IsAccounted, lock_page_outside,
}
use osfort.Paging.Count.{count}
use osfort.Paging.Request.{frames_of, Requested, req_page-Requested}
use osfort.Paging.Table.{map_pages, decode, read_entry, map_page, vir_to_phys}
use osfort.Paging.Table.Invariant.{IsTables, present}
use osfort.Paging.Table.Run.{RunMapped, map_pages-RunMapped}
use osfort.Paging.Table.Chain.{tables}
use osfort.Paging.Table.Map.{page_of, Mapped, map_page-walk}
use osfort.Paging.Table.Translate.{vir_to_phys-walk, map_page-vir_to_phys}

-- 16 frames, of which frame 0 holds the map and frame 1 an empty root table.
abbrev start_mem : Mem
start_mem x = if x == 0 then 3 else 0

abbrev start : Pages
start = record {
  page_bitmap = record {
    bitmap = record { buffer = 0; size = 2 };
    free = 0xe000;
    reserved = 0;
    used = 0x2000;
  };
  mem = start_mem;
}

abbrev levels : ℕ → ℕ
levels f = if f == 1 then 4 else 0

levels-one : (f : ℕ) → levels f ≢ 0 → f ≡ 1
levels-one f used = ground arith

levels-low : (f : ℕ) → 2 ≤ levels f → f ≡ 1
levels-low f deep = ground arith

load_bytes-zero : (n a : ℕ) → load_bytes n (λ x. 0) a ≡ 0
unfolding load_bytes load8
load_bytes-zero zero a = refl
load_bytes-zero (suc n) a = omega (arith, load_bytes-zero n (a + 1))

root_empty : (i : ℕ) → present start_mem 1 i ≡ false
unfolding read_entry decode
root_empty i =
    let word : load64 start_mem (1 * page_size + 8 * i) ≡ 0 =
      load_bytes_ext 8 start_mem (λ x. 0) (1 * page_size + 8 * i) (λ x p q. ground arith)
      ∙ load_bytes-zero 8 (1 * page_size + 8 * i) in
    ap (λ w. truthy (w % 2)) word

start-IsTables : IsTables 1 levels (λ f. 0) start
unfolding get_bitmap load8
start-IsTables = record {
  small = omega arith;
  root_level = refl;
  root_prefix = refl;
  inside = λ f used. ground arith;
  taken = λ f used. rw (levels-one f used) refl;
  apart = λ f used. inr (omega (arith, levels-one f used));
  map_taken = λ x p q. let e : x / page_size ≡ 0 = omega arith in rw e (omega arith, refl);
  child = λ f i deep hi there.
      absurd
        (ground (arith, root_empty i, ap (λ g. present start_mem g i) (levels-low f deep), there));
}

room : marked start + 3 ≤ frames_of start
unfolding count load8
room = omega arith

abbrev vir : ℕ
vir = 0xFFFF800000005123

map_page-walk_example : Mapped 1 levels vir 0x7abc start (map_page start (1 * page_size) vir 0x7abc)
map_page-walk_example = map_page-walk vir 0x7abc start-IsTables room

map_page-vir_to_phys_example :
    vir_to_phys 40 (map_page start (1 * page_size) vir 0x7abc).mem (1 * page_size) vir
    ≡ 0x7abc / page_size * page_size
map_page-vir_to_phys_example =
    map_page-vir_to_phys 40 vir 0x7abc (omega arith) start-IsTables room (omega arith)

vir_to_phys-walk_example :
    vir_to_phys 40 (map_page start (1 * page_size) vir 0x7abc).mem (1 * page_size) vir
    ≡ 0x7abc / page_size % 2 ^ 40 * page_size % 2 ^ 40
vir_to_phys-walk_example =
    vir_to_phys-walk 40 (omega arith) (map_page-walk_example.2) vir (0x7abc / page_size % 2 ^ 40)
      map_page-walk_example.3

req_page-Requested_example : Requested start 0 16 (req_page start)
req_page-Requested_example = req_page-Requested start (omega arith)

start-IsAccounted : IsAccounted 0x10000 16 start
unfolding count load8
start-IsAccounted = record { extent = refl; sized = omega arith; taken = refl; whole = refl }

page_ops-IsAccounted_example :
    IsAccounted 0x10000 16 (free_page start 0x1000)
    × IsAccounted 0x10000 16 (lock_page start 0x1000)
    × IsAccounted 0x10000 16 (unreserve_page start 0x1000)
    × IsAccounted 0x10000 16 (reserve_page start 0x1000)
page_ops-IsAccounted_example = page_ops-IsAccounted 0x1000 (omega arith) start-IsAccounted

pages_ops-IsAccounted_example :
    IsAccounted 0x10000 16 (free_pages start 0x1000 3)
    × IsAccounted 0x10000 16 (lock_pages start 0x1000 3)
    × IsAccounted 0x10000 16 (unreserve_pages start 0x1000 3)
    × IsAccounted 0x10000 16 (reserve_pages start 0x1000 3)
pages_ops-IsAccounted_example =
    pages_ops-IsAccounted 0x1000 3 (omega arith) (omega arith) start-IsAccounted

lock_page_outside_example :
    ((lock_page start 0x11000).mem ≡ start.mem)
    × ((lock_page start 0x11000).page_bitmap.free ≡ sub64 start.page_bitmap.free page_size)
    × ¬ IsAccounted 0x10000 16 (lock_page start 0x11000)
    × ((reserve_page start 0x11000).mem ≡ start.mem)
    × ¬ IsAccounted 0x10000 16 (reserve_page start 0x11000)
lock_page_outside_example = lock_page_outside 0x11000 (omega arith) start-IsAccounted

map_pages-RunMapped_example :
    RunMapped
      (tables (page_of vir))
      (tables (page_of vir + 2) + 3)
      1
      vir
      0x7000
      0
      2
      levels
      start
      (map_pages start (1 * page_size) vir 0x7000 2)
unfolding count load8
map_pages-RunMapped_example =
    map_pages-RunMapped vir 0x7000 2 start-IsTables
      (record { vir_fits = omega arith; phys_fits = omega arith; pages = omega arith })
      (omega arith)
