-- ===== src/Paging/Account.antt =====
-- The counters of the page allocator against the bits of its map.
use osfort.Base.{
  ℕ, zero, suc, ◌+◌, ◌*◌, ◌/◌, ◌%◌, ◌^◌, ◌≤◌, ◌<◌, ◌≡◌, inl, inr, refl, ap, true, false, arith,
  Bool-cases, u64, sub64,
}
use osfort.Base.Bits.{digit-lt}
use osfort.Memory.{Mem, load8}
use osfort.Bitmap.Laws.{IsSized, get_bitmap-bit_of, get_bitmap-refused, set_bitmap-refused}
use osfort.Paging.{
  page_size, Pages, is_taken, mark, free_page, lock_page, unreserve_page, reserve_page, each_page,
  free_pages, lock_pages, unreserve_pages, reserve_pages,
}
use osfort.Paging.Count.{count, count-set_bitmap}

-- The number of frames that the map marks.
abbrev pub marked : Pages → ℕ
marked s = count s.mem s.page_bitmap.bitmap (s.page_bitmap.bitmap.size * 8)

-- `used` and `reserved` together stand for the marked frames, and `free` for the rest of `total`
-- bytes, all modulo 2 ^ 64 as the counters are. The map has `frames` bits.
pub record IsAccounted (total frames : ℕ) (s : Pages) : Type 0 where
  pub extent : s.page_bitmap.bitmap.size * 8 ≡ frames
  pub sized : IsSized s.page_bitmap.bitmap
  pub taken : u64 (s.page_bitmap.used + s.page_bitmap.reserved) ≡ u64 (page_size * marked s)
  pub whole : u64 (s.page_bitmap.free + s.page_bitmap.used + s.page_bitmap.reserved) ≡ u64 total

-- A bit that is clear and gets set, and the other way round.
pub marked-set :
    (s : Pages) (i : ℕ)
    → IsSized s.page_bitmap.bitmap
    → i < s.page_bitmap.bitmap.size * 8
    → is_taken s i ≡ false
    → count (mark s i 1) s.page_bitmap.bitmap (s.page_bitmap.bitmap.size * 8) ≡ marked s + 1
marked-set s i sized h e = ground (
  arith,
  get_bitmap-bit_of s.mem s.page_bitmap.bitmap i sized,
  count-set_bitmap s.mem s.page_bitmap.bitmap i 1 (s.page_bitmap.bitmap.size * 8) sized,
)

marked-clear :
    (s : Pages) (i : ℕ)
    → IsSized s.page_bitmap.bitmap
    → i < s.page_bitmap.bitmap.size * 8
    → is_taken s i ≡ true
    → count (mark s i 0) s.page_bitmap.bitmap (s.page_bitmap.bitmap.size * 8) + 1 ≡ marked s
marked-clear s i sized h e = ground (
  arith,
  digit-lt (load8 s.mem (s.page_bitmap.bitmap.buffer + i / 8)) (i % 8),
  get_bitmap-bit_of s.mem s.page_bitmap.bitmap i sized,
  count-set_bitmap s.mem s.page_bitmap.bitmap i 0 (s.page_bitmap.bitmap.size * 8) sized,
)

module _ {total frames : ℕ} {s : Pages} (addr : ℕ) (h : addr / page_size < frames)
    (acc : IsAccounted total frames s) where
  free_page-IsAccounted : IsAccounted total frames (free_page s addr)
  unfolding free_page
  free_page-IsAccounted = elim (Bool-cases (is_taken s (addr / page_size))) [
    | inl on ↦ rw on record {
      extent = acc.extent;
      sized = acc.sized;
      taken = ground (arith, acc.taken, acc.extent, marked-clear s (addr / page_size) acc.sized);
      whole = omega (arith, acc.whole);
    }
    | inr off ↦ rw off acc
  ]

  lock_page-IsAccounted : IsAccounted total frames (lock_page s addr)
  unfolding lock_page
  lock_page-IsAccounted = elim (Bool-cases (is_taken s (addr / page_size))) [
    | inl on ↦ rw on acc
    | inr off ↦ rw off record {
      extent = acc.extent;
      sized = acc.sized;
      taken = ground (arith, acc.taken, acc.extent, marked-set s (addr / page_size) acc.sized);
      whole = omega (arith, acc.whole);
    }
  ]

  unreserve_page-IsAccounted : IsAccounted total frames (unreserve_page s addr)
  unfolding unreserve_page
  unreserve_page-IsAccounted = elim (Bool-cases (is_taken s (addr / page_size))) [
    | inl on ↦ rw on record {
      extent = acc.extent;
      sized = acc.sized;
      taken = ground (arith, acc.taken, acc.extent, marked-clear s (addr / page_size) acc.sized);
      whole = omega (arith, acc.whole);
    }
    | inr off ↦ rw off acc
  ]

  reserve_page-IsAccounted : IsAccounted total frames (reserve_page s addr)
  unfolding reserve_page
  reserve_page-IsAccounted = elim (Bool-cases (is_taken s (addr / page_size))) [
    | inl on ↦ rw on acc
    | inr off ↦ rw off record {
      extent = acc.extent;
      sized = acc.sized;
      taken = ground (arith, acc.taken, acc.extent, marked-set s (addr / page_size) acc.sized);
      whole = omega (arith, acc.whole);
    }
  ]

-- Each of the four operations on one page whose frame has a bit in the map keeps the counters and
-- the bits in step.
pub page_ops-IsAccounted :
    {total frames : ℕ} {s : Pages} (addr : ℕ)
    → addr / page_size < frames
    → IsAccounted total frames s
    → IsAccounted total frames (free_page s addr)
      × IsAccounted total frames (lock_page s addr)
      × IsAccounted total frames (unreserve_page s addr)
      × IsAccounted total frames (reserve_page s addr)
page_ops-IsAccounted addr h acc = (
  free_page-IsAccounted addr h acc,
  lock_page-IsAccounted addr h acc,
  unreserve_page-IsAccounted addr h acc,
  reserve_page-IsAccounted addr h acc,
)

-- A run of pages inside the map is handled page by page.
each_page_inv :
    (P : Pages → Type 0) (op : Pages → ℕ → Pages) (frames : ℕ)
    → ((s : Pages) (a : ℕ) → a / page_size < frames → P s → P (op s a))
    → frames * page_size ≤ 2 ^ 64
    → (k i : ℕ) (s : Pages) (addr : ℕ) → addr + (i + k) * page_size ≤ frames * page_size
    → P s
    → P (each_page op k i s addr)
unfolding each_page
each_page_inv P op frames keep w zero i s addr h p = p
each_page_inv P op frames keep w (suc k) i s addr h p =
    each_page_inv P op frames keep w k (i + 1) (op s (u64 (addr + u64 (i * page_size)))) addr
      (omega arith) (keep s (u64 (addr + u64 (i * page_size))) (omega arith) p)

-- Each of the four operations on a run of pages that lies inside the map, of frames below 2 ^ 64, keeps
-- the counters and the bits in step.
pub pages_ops-IsAccounted :
    {total frames : ℕ} {s : Pages} (addr page_cnt : ℕ)
    → frames * page_size ≤ 2 ^ 64
    → addr + page_cnt * page_size ≤ frames * page_size
    → IsAccounted total frames s
    → IsAccounted total frames (free_pages s addr page_cnt)
      × IsAccounted total frames (lock_pages s addr page_cnt)
      × IsAccounted total frames (unreserve_pages s addr page_cnt)
      × IsAccounted total frames (reserve_pages s addr page_cnt)
unfolding free_pages lock_pages unreserve_pages reserve_pages
pages_ops-IsAccounted {total} {frames} {s} addr page_cnt w h acc = (
  each_page_inv P free_page frames (λ s a q p. free_page-IsAccounted a q p) w page_cnt 0 s addr
      (omega arith) acc,
  each_page_inv P lock_page frames (λ s a q p. lock_page-IsAccounted a q p) w page_cnt 0 s addr
      (omega arith) acc,
  each_page_inv P unreserve_page frames (λ s a q p. unreserve_page-IsAccounted a q p) w page_cnt 0 s
      addr (omega arith) acc,
  each_page_inv P reserve_page frames (λ s a q p. reserve_page-IsAccounted a q p) w page_cnt 0 s
      addr (omega arith) acc,
)
  where
    P : Pages → Type 0
    P = IsAccounted total frames

-- From counters in step with the bits, a lock of a page more than one frame behind the map's last bit
-- changes no memory and still takes a page's worth of bytes off `free`, so that the counters are no
-- longer in step; a reservation likewise leaves the memory and ends out of step.
pub lock_page_outside :
    {total frames : ℕ} {s : Pages} (addr : ℕ)
    → frames < addr / page_size
    → IsAccounted total frames s
    → ((lock_page s addr).mem ≡ s.mem)
      × ((lock_page s addr).page_bitmap.free ≡ sub64 s.page_bitmap.free page_size)
      × ¬ IsAccounted total frames (lock_page s addr)
      × ((reserve_page s addr).mem ≡ s.mem)
      × ¬ IsAccounted total frames (reserve_page s addr)
unfolding lock_page reserve_page
lock_page_outside {s} addr h acc =
    let i = addr / page_size in
    let b = s.page_bitmap.bitmap in
    let off = get_bitmap-refused s.mem b i acc.sized (omega (arith, acc.extent)) in
    let kept = λ (v : ℕ). set_bitmap-refused s.mem b i v acc.sized (omega (arith, acc.extent)) in
    let same = ap (λ (r : Mem × ℕ). count r.0 b (b.size * 8)) (kept 1) in
    rw (off, kept 1)
      (
        refl,
        refl,
        λ bad. omega (arith, acc.taken, bad.taken, same),
        refl,
        λ bad. omega (arith, acc.taken, bad.taken, same),
      )
