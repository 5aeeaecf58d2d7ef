-- ===== src/Print/Screen.antt =====
-- boot/kernel/print.c: the text screen. The glyphs lie in the program's data, apart from the memory
-- with the frame buffer.
pub mod Cursor
pub mod Format
pub mod Printed
pub mod Clear
use osfort.Base.{
  ℕ, zero, suc, ◌+◌, ◌-◌, ◌*◌, ◌/◌, List, [], ◌∷◌, get_or, Option, none, some, if◌then◌else◌, ltb,
  leb, ◌==◌, truthy, u32, u64,
}
use osfort.Memory.{Mem, store32}
use osfort.Bitmap.{Bitmap, get_bitmap}
use osfort.Print.Font.{char_to_bitmap, font_width, font_height}

-- GRAPHICS without framebuffer_size, which no operation reads, and with the memory.
pub record Graphics : Type 0 where
  pub mem : Mem
  pub framebuffer_base : ℕ
  pub width : ℕ
  pub height : ℕ
  pub pixels_per_scanline : ℕ
  pub x : ℕ
  pub y : ℕ

-- The address of pixel (j, i) of the cell at the cursor: the offsets are computed on 32 bits.
unfoldable pub pixel_addr : Graphics → ℕ → ℕ → ℕ
pixel_addr g i j = u64 (
    g.framebuffer_base
    + u32 (u32 (g.pixels_per_scanline * u32 (u32 (g.y * font_height) + i)) * 4)
    + u32 (u32 (u32 (g.x * font_width) + j) * 4))

-- The loops over the pixels of one row, and over the rows, from (i, j) on.
unfoldable pub draw_row : ℕ → ℕ → ℕ → Graphics → List ℕ → Mem → Mem
draw_row zero i j g glyph m = m
draw_row (suc n) i j g glyph m =
    let bit =
      get_bitmap (λ a. get_or glyph a 0) (record { buffer = 0; size = font_height })
        (i * font_width + (font_width - j - 1)) in
    draw_row n i (j + 1) g glyph (if truthy bit then store32 m (pixel_addr g i j) 0xaaaaaaaa else m)

unfoldable pub draw_rows : ℕ → ℕ → Graphics → List ℕ → Mem → Mem
draw_rows zero i g glyph m = m
draw_rows (suc n) i g glyph m = draw_rows n (i + 1) g glyph (draw_row font_width i 0 g glyph m)

-- graphics.x++, and the next line at the end of this one.
unfoldable pub advance : Graphics → Graphics
advance g =
    let columns = g.pixels_per_scanline / font_width in
    let next = u32 (g.x + 1) in
    if leb columns next
    then record g { x = next - columns; y = u32 (g.y + 1) }
    else record g { x = next }

-- A character that is not a control character of the switch: one without a glyph is passed over.
unfoldable pub put_glyph : Graphics → Option (List ℕ) → Graphics
put_glyph g none = g
put_glyph g (some glyph) = advance (record g { mem = draw_rows font_height 0 g glyph g.mem })

unfoldable pub put_times : ℕ → Graphics → ℕ → Graphics
put_times zero g ch = g
put_times (suc n) g ch = put_times n (put_glyph g (char_to_bitmap ch)) ch

unfoldable pub kputc : Graphics → ℕ → Graphics
kputc g ch =
    if ch == 10
    then record g { x = 0; y = u32 (g.y + 1) }
    else if ch == 13
    then record g { x = 0 }
    else if ch == 9
    then put_times 4 g 32
    else put_glyph g (char_to_bitmap ch)

-- A C text is the list of its bytes with the NUL; at the end of the list the text ends too.
unfoldable pub kputs : Graphics → List ℕ → Graphics
kputs g [] = g
kputs g (ch ∷ str) = let rest = kputs (kputc g ch) str in if ch == 0 then g else rest
