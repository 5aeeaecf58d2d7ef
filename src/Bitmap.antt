-- ===== src/Bitmap.antt =====
-- boot/kernel/bitmap.c: a bit map over bytes of memory.
pub mod Bit
pub mod Laws
use osfort.Base.{
  ℕ, ◌+◌, ◌*◌, ◌/◌, ◌%◌, Bool, if◌then◌else◌, ltb, truthy, u8, u64, ◌<<<◌, complement, bit_and,
  bit_or,
}
use osfort.Memory.{Mem, load8, store8}

pub record Bitmap : Type 0 where
  pub buffer : ℕ
  pub size : ℕ

-- 1 or 0; 0 also for an index that is refused.
unfoldable pub get_bitmap : Mem → Bitmap → ℕ → ℕ
get_bitmap m bitmap index =
    if ltb (u64 (bitmap.size * 8)) index
    then 0
    else let byte_index = index / 8 in
      let bit_index = u8 (index % 8) in
      let mask = u8 (1 <<< bit_index) in
      if truthy (bit_and (load8 m (bitmap.buffer + byte_index)) mask) then 1 else 0

-- The new memory and the result: 0 for an index that is refused, else 1.
unfoldable pub set_bitmap : Mem → Bitmap → ℕ → ℕ → Mem × ℕ
set_bitmap m bitmap index value =
    if ltb (u64 (bitmap.size * 8)) index
    then (m, 0)
    else let byte_index = index / 8 in
      let bit_index = u8 (index % 8) in
      let mask = u8 (1 <<< bit_index) in
      let at = bitmap.buffer + byte_index in
      if truthy value
      then (store8 m at (bit_or (load8 m at) mask), 1)
      else (store8 m at (bit_and (load8 m at) (complement 8 mask)), 1)
