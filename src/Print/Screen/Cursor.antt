-- ===== src/Print/Screen/Cursor.antt =====
-- Where the cursor goes.
use osfort.Base.{
  ℕ, zero, suc, ◌+◌, ◌*◌, ◌/◌, ◌^◌, ◌≡◌, ◌<◌, ◌≤◌, refl, ap, ◌∙◌, List, [], ◌∷◌, length, Option,
  none, some, leb, ◌==◌, Bool, ◌&&◌, Bool-cases, ne→==, ◌≢◌, sym, inl, inr, true, u32, arith,
}
use mathlib.Core.Path.{subst}
use osfort.Sys.Ctype.{pos, isprint}
use osfort.Print.Font.{char_to_bitmap, font_width}
use osfort.Print.Font.Laws.{is_some, char_to_bitmap-isprint}
use osfort.Print.Screen.{Graphics, advance, put_glyph, put_times, kputc, kputs}

-- The cursor is on a column of its line.
unfoldable pub IsOnLine : Graphics → Type 0
IsOnLine g = (g.x < g.pixels_per_scanline / font_width) × (g.pixels_per_scanline < 2 ^ 32)

advance-IsOnLine : (g : Graphics) → IsOnLine g → IsOnLine (advance g)
unfolding IsOnLine advance
advance-IsOnLine g (h, w) =
    let next : u32 (g.x + 1) ≡ g.x + 1 = omega arith in
    elim (Bool-cases (leb (g.pixels_per_scanline / font_width) (u32 (g.x + 1)))) [
      | inl end ↦ rw end (ground (arith, next, end), w)
      | inr inside ↦ rw inside (ground (arith, next, inside), w)
    ]

put_glyph-IsOnLine : (g : Graphics) (o : Option (List ℕ)) → IsOnLine g → IsOnLine (put_glyph g o)
unfolding put_glyph IsOnLine
put_glyph-IsOnLine g none h = h
put_glyph-IsOnLine g (some glyph) h = advance-IsOnLine _ h

put_times-IsOnLine : (n : ℕ) (g : Graphics) (ch : ℕ) → IsOnLine g → IsOnLine (put_times n g ch)
unfolding put_times
put_times-IsOnLine zero g ch h = h
put_times-IsOnLine (suc n) g ch h =
    put_times-IsOnLine n _ ch (put_glyph-IsOnLine g (char_to_bitmap ch) h)

kputc-IsOnLine : (g : Graphics) (ch : ℕ) → IsOnLine g → IsOnLine (kputc g ch)
unfolding kputc IsOnLine
kputc-IsOnLine g ch (h, w) = elim (Bool-cases (ch == 10)) [
  | inl newline ↦ rw newline (omega arith, w)
  | inr other ↦ rw other (elim (Bool-cases (ch == 13)) [
    | inl start ↦ rw start (omega arith, w)
    | inr other' ↦ rw other' (elim (Bool-cases (ch == 9)) [
      | inl tab ↦ rw tab (put_times-IsOnLine 4 g 32 (h, w))
      | inr shown ↦ rw shown (put_glyph-IsOnLine g (char_to_bitmap ch) (h, w))
    ])
  ])
]

-- On a screen of at least one column, with the cursor on a column of its line, whatever text is put
-- out leaves the cursor on a column of its line.
pub kputs-IsOnLine : (g : Graphics) (str : List ℕ) → IsOnLine g → IsOnLine (kputs g str)
unfolding kputs
kputs-IsOnLine g [] h = h
kputs-IsOnLine g (ch ∷ str) h = elim (Bool-cases (ch == 0)) [
  | inl last ↦ rw last h
  | inr more ↦ rw more (kputs-IsOnLine (kputc g ch) str (kputc-IsOnLine g ch h))
]

-- The number of cells before the cursor.
unfoldable pub position : Graphics → ℕ
position g = g.y * (g.pixels_per_scanline / font_width) + g.x

unfoldable pub all_print : List ℕ → Bool
all_print [] = true
all_print (ch ∷ str) = isprint (pos ch) && all_print str

-- What one glyph does to the position and to the line.
advance-position :
    (g : Graphics)
    → IsOnLine g
    → g.y + 1 < 2 ^ 32
    → (position (advance g) ≡ position g + 1) × ((advance g).y ≤ g.y + 1)
unfolding IsOnLine advance position
advance-position g (h, w) low =
    let next : u32 (g.x + 1) ≡ g.x + 1 = omega arith in
    let line : u32 (g.y + 1) ≡ g.y + 1 = omega arith in
    let columns = g.pixels_per_scanline / font_width in
    let lines : u32 (g.y + 1) * columns ≡ g.y * columns + columns =
      ap (λ t. t * columns) line ∙ omega arith in
    elim (Bool-cases (leb (g.pixels_per_scanline / font_width) (u32 (g.x + 1)))) [
      | inl end ↦ rw end (ground (arith, next, lines, end), ground (arith, line))
      | inr inside ↦ rw inside (ground (arith, next, inside), ground arith)
    ]

put_glyph-position :
    (g : Graphics) (o : Option (List ℕ))
    → is_some o ≡ true
    → IsOnLine g
    → g.y + 1 < 2 ^ 32
    → (position (put_glyph g o) ≡ position g + 1) × ((put_glyph g o).y ≤ g.y + 1)
unfolding put_glyph is_some IsOnLine position
put_glyph-position g none e h low = absurd (ground (arith, e))
put_glyph-position g (some glyph) e h low = advance-position _ h low

kputc-printable :
    (g : Graphics) (ch : ℕ) → isprint (pos ch) ≡ true → kputc g ch ≡ put_glyph g (char_to_bitmap ch)
unfolding kputc isprint
kputc-printable g ch h =
    rw (ne→== ch 10 (ground (arith, h)))
      (rw (ne→== ch 13 (ground (arith, h))) (rw (ne→== ch 9 (ground (arith, h))) refl))

not_nul : (c : ℕ) → isprint (pos c) ≡ true → c ≢ 0
unfolding isprint
not_nul c p = ground (arith, p)

-- A text of printable characters advances the cursor by one cell for each, from line to line, and
-- leaves it on a column of its line, as it was before, as long as the line number has room for that
-- many more lines.
pub kputs-position :
    (g : Graphics) (str : List ℕ)
    → all_print str ≡ true
    → IsOnLine g
    → g.y + length str < 2 ^ 32
    → (position (kputs g str) ≡ position g + length str) × IsOnLine (kputs g str)
unfolding kputs all_print
kputs-position g [] e h low = (omega arith, h)
kputs-position g (ch ∷ str) e h low =
    let printable : isprint (pos ch) ≡ true = ground (arith, e) in
    let others : all_print str ≡ true = ground (arith, e) in
    let more = ne→== ch 0 (not_nul ch printable) in
    let shown =
      put_glyph-position g (char_to_bitmap ch) (char_to_bitmap-isprint ch ∙ printable) h
        (omega arith) in
    let step = kputc-printable g ch printable in
    let there = subst (λ k. (position k ≡ position g + 1) × (k.y ≤ g.y + 1)) (sym step) shown in
    let rest =
      kputs-position (kputc g ch) str others (kputc-IsOnLine g ch h) (omega (arith, there.1)) in
    rw more (omega (arith, rest.0, there.0), rest.1)
