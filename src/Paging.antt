-- ===== src/Paging.antt =====
-- boot/kernel/paging.c and paging.h: the page allocator.
pub mod Count
pub mod Account
pub mod Request
pub mod Table
use osfort.Base.{
  ℕ, zero, suc, ◌+◌, ◌-◌, ◌*◌, ◌/◌, ◌%◌, ◌^◌, Bool, true, false, not, if◌then◌else◌, ltb, truthy,
  u64, sub64,
}
use osfort.Memory.{Mem}
use osfort.Bitmap.{Bitmap, get_bitmap, set_bitmap}

abbrev pub page_size : ℕ
page_size = 0x1000

pub record PageBitmap : Type 0 where
  pub bitmap : Bitmap
  pub free : ℕ
  pub reserved : ℕ
  pub used : ℕ

-- The memory, which holds the bits, and the allocator's record.
pub record Pages : Type 0 where
  pub page_bitmap : PageBitmap
  pub mem : Mem

abbrev pub is_taken : Pages → ℕ → Bool
is_taken s i = truthy (get_bitmap s.mem s.page_bitmap.bitmap i)

abbrev pub mark : Pages → ℕ → ℕ → Mem
mark s i value = (set_bitmap s.mem s.page_bitmap.bitmap i value).0

unfoldable pub free_page : Pages → ℕ → Pages
free_page s addr =
    let i = addr / page_size in
    let p = s.page_bitmap in
    if is_taken s i
    then record {
      page_bitmap = record p { free = u64 (p.free + page_size); used = sub64 p.used page_size };
      mem = mark s i 0;
    }
    else s

unfoldable pub lock_page : Pages → ℕ → Pages
lock_page s addr =
    let i = addr / page_size in
    let p = s.page_bitmap in
    if not (is_taken s i)
    then record {
      page_bitmap = record p { free = sub64 p.free page_size; used = u64 (p.used + page_size) };
      mem = mark s i 1;
    }
    else s

unfoldable pub unreserve_page : Pages → ℕ → Pages
unreserve_page s addr =
    let i = addr / page_size in
    let p = s.page_bitmap in
    if is_taken s i
    then record {
      page_bitmap = record p {
        free = u64 (p.free + page_size);
        reserved = sub64 p.reserved page_size;
      };
      mem = mark s i 0;
    }
    else s

unfoldable pub reserve_page : Pages → ℕ → Pages
reserve_page s addr =
    let i = addr / page_size in
    let p = s.page_bitmap in
    if not (is_taken s i)
    then record {
      page_bitmap = record p {
        free = sub64 p.free page_size;
        reserved = u64 (p.reserved + page_size);
      };
      mem = mark s i 1;
    }
    else s

-- for (i = 0; i < page_cnt; i++) op(addr + i * PAGE_SIZE), at round i with k rounds left.
unfoldable pub each_page : (Pages → ℕ → Pages) → ℕ → ℕ → Pages → ℕ → Pages
each_page op zero i s addr = s
each_page op (suc k) i s addr =
    each_page op k (i + 1) (op s (u64 (addr + u64 (i * page_size)))) addr

unfoldable pub free_pages : Pages → ℕ → ℕ → Pages
free_pages s addr page_cnt = each_page free_page page_cnt 0 s addr

unfoldable pub lock_pages : Pages → ℕ → ℕ → Pages
lock_pages s addr page_cnt = each_page lock_page page_cnt 0 s addr

unfoldable pub unreserve_pages : Pages → ℕ → ℕ → Pages
unreserve_pages s addr page_cnt = each_page unreserve_page page_cnt 0 s addr

unfoldable pub reserve_pages : Pages → ℕ → ℕ → Pages
reserve_pages s addr page_cnt = each_page reserve_page page_cnt 0 s addr

-- The scan of req_page at frame i with k frames left; 0 is NULL.
unfoldable pub req_page_from : ℕ → ℕ → Pages → Pages × ℕ
req_page_from zero i s = (s, 0)
req_page_from (suc k) i s =
    let rest = req_page_from k (i + 1) s in
    if is_taken s i then rest else (lock_page s (u64 (i * page_size)), u64 (i * page_size))

unfoldable pub req_page : Pages → Pages × ℕ
req_page s = req_page_from (u64 (s.page_bitmap.bitmap.size * 8)) 0 s
