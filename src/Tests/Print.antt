-- ===== src/Tests/Print.antt =====
-- The texts of numbers and the screen at concrete inputs.
use osfort.Base.{
  inr, ◌*◌, ℕ, ◌+◌, ◌-◌, ◌%◌, ◌^◌, ◌≡◌, ◌<◌, ◌≤◌, List, [], ◌∷◌, length, get_or, true, some, refl,
  arith,
}
use osfort.Print.{itoa}
use osfort.Print.Decimal.{IsDecimal, itoa-IsDecimal}
use osfort.Print.Font.{char_to_bitmap}
use osfort.Print.Font.Laws.{is_some, char_to_bitmap-isprint}
use osfort.Print.Screen.{Graphics, kputs}
use osfort.Print.Screen.Format.{kprintf}
use osfort.Print.Screen.Printed
use osfort.Print.Screen.Printed.{
  Piece, character, percent, decimal, hexadecimal, format_of, args_of, IsFormat, Printed,
  kprintf-Printed,
}
use osfort.Print.Screen.Clear.{clear_screen, clear_screen-low}
use osfort.Print.Screen.Cursor.{IsOnLine, position, all_print, kputs-position}
use osfort.Sys.Ctype.{pos, isprint}
use osfort.Print.Decimal
use osfort.Print.Wrapped.{itoa-value}

itoa-IsDecimal_example : (t : List ℕ) × ((itoa 1024 ≡ some t) × IsDecimal t 1024)
itoa-IsDecimal_example = itoa-IsDecimal 1024 (omega arith)

itoa-value_example :
    (t : List ℕ) × ((itoa 12345678901234567890 ≡ some t)
      × (get_or t 0 0 ≡ 48)
      × (Decimal.value t 20 ≡ 12345678901234567890 - 10 ^ 19)
      × (get_or t 20 0 ≡ 0)
      × ((j : ℕ) → j < 20 → (b'0' ≤ get_or t j 0) × (get_or t j 0 ≤ b'9')))
itoa-value_example = itoa-value 12345678901234567890 (omega arith) (omega arith)

char_to_bitmap-isprint_example : is_some (char_to_bitmap b'a') ≡ isprint (pos b'a')
char_to_bitmap-isprint_example = char_to_bitmap-isprint b'a'

-- A screen of 3 columns, with the cursor in the last.
abbrev screen : Graphics
screen = record {
  mem = λ x. 0;
  framebuffer_base = 0x1000;
  width = 30;
  height = 90;
  pixels_per_scanline = 30;
  x = 2;
  y = 4;
}

abbrev text : List ℕ
text = b'h' ∷ b'i' ∷ []

screen-IsOnLine : IsOnLine screen
unfolding IsOnLine
screen-IsOnLine = omega arith

text-all_print : all_print text ≡ true
unfolding all_print isprint
text-all_print = refl

kputs-position_example :
    (position (kputs screen text) ≡ position screen + length text) × IsOnLine (kputs screen text)
kputs-position_example = kputs-position screen text text-all_print screen-IsOnLine (omega arith)

-- "a%%d%x%s" of -1, of 11 and of a text: the first percent sign begins no directive.
abbrev pieces : List Piece
pieces = character b'a' ∷ percent ∷ decimal 0xffffffff ∷ hexadecimal 11 ∷ Printed.text text ∷ []

pieces-IsFormat : IsFormat pieces
unfolding IsFormat format_of
pieces-IsFormat = ground arith

kprintf-Printed_example :
    (t : List ℕ) × (Printed pieces t
      × (kprintf screen (format_of pieces) (args_of pieces) ≡ some (kputs screen t)))
kprintf-Printed_example = kprintf-Printed screen pieces pieces-IsFormat

clear_screen-low_example :
    ((clear_screen screen 0xff444444).mem (0x1000 + 1 * 30 + 2) ≡ 0xff444444 % 256)
    × ((clear_screen screen 0xff444444).mem 0x2000 ≡ 0)
clear_screen-low_example =
    clear_screen-low screen 0xff444444 1 2 0x2000 (omega arith) (omega arith) (omega arith)
      (omega arith) (inr (omega arith))
