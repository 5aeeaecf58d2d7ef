-- ===== src/Tests/Bits.antt =====
-- The bit map, the string functions and the registers at concrete inputs.
use osfort.Base.{◌≡◌, ◌==◌, ◌↔◌, inr, if◌then◌else◌, truthy, arith}
use osfort.Memory.{Mem}
use osfort.Bitmap.{Bitmap, get_bitmap, set_bitmap}
use osfort.Bitmap.Laws.{get_bitmap-set_bitmap}
use osfort.Sys.Str.{strncmp, nought}
use osfort.Sys.Str.Laws.{strncmp_iff, cstr}
use osfort.Sys.Ctype.{pos, isupper, islower, toupper, tolower}
use osfort.Sys.Ctype.Laws.{toupper-tolower}
use osfort.Nvme.{nvme_mmio_read_64, nvme_mmio_write_64}
use osfort.Nvme.Register.{nvme_mmio_read_64-write_64}

-- Every byte is its address modulo 256.
abbrev ramp : Mem
ramp x = x

abbrev small_map : Bitmap
small_map = record { buffer = 100; size = 4 }

get_bitmap-set_bitmap_example :
    ((set_bitmap ramp small_map 9 1).1 ≡ 1)
    × (get_bitmap (set_bitmap ramp small_map 9 1).0 small_map 9
        ≡ (if 9 == 9 then (if truthy 1 then 1 else 0) else get_bitmap ramp small_map 9))
    × ((set_bitmap ramp small_map 9 1).0 104 ≡ ramp 104)
get_bitmap-set_bitmap_example =
    get_bitmap-set_bitmap ramp small_map 9 9 1 104 (omega arith) (omega arith) (omega arith)
      (inr (omega arith))

strncmp_iff_example : (strncmp ramp 1 257 9 ≡ nought) ↔ (cstr 9 ramp 1 ≡ cstr 9 ramp 257)
strncmp_iff_example = strncmp_iff ramp 1 257 9

toupper-tolower_example :
    (toupper (tolower (pos b'Q')) ≡ (if isupper (pos b'Q') then pos b'Q' else pos 0))
    × (tolower (toupper (pos b'Q')) ≡ (if islower (pos b'Q') then pos b'Q' else pos 0))
    × (islower (tolower (pos b'Q')) ≡ isupper (pos b'Q'))
    × (isupper (toupper (pos b'Q')) ≡ islower (pos b'Q'))
    × (toupper (pos b'Q') ≡ (if islower (pos b'Q') then toupper (pos b'Q') else pos 0))
    × (tolower (pos b'Q') ≡ (if isupper (pos b'Q') then tolower (pos b'Q') else pos 0))
toupper-tolower_example = toupper-tolower (pos b'Q')

nvme_mmio_read_64-write_64_example :
    (nvme_mmio_read_64 (nvme_mmio_write_64 ramp 16 8 28 200 8) 16 8 28 8 ≡ 200)
    × (nvme_mmio_read_64 (nvme_mmio_write_64 ramp 16 8 28 200 8) 16 8 36 4
        ≡ nvme_mmio_read_64 ramp 16 8 36 4)
    × (nvme_mmio_write_64 ramp 16 8 28 200 8 32 ≡ ramp 32)
nvme_mmio_read_64-write_64_example =
    nvme_mmio_read_64-write_64 ramp 16 8 28 200 8 (omega arith) 36 4 32 (omega arith) (omega arith)
      (omega arith) (omega arith) (omega arith) (inr (omega arith)) (inr (omega arith))
