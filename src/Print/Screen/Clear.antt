-- ===== src/Print/Screen/Clear.antt =====
-- boot/kernel/print.c, clear_line and clear_screen.
use osfort.Base.{
  ℕ, zero, suc, ◌+◌, ◌*◌, ◌%◌, ◌^◌, ◌≤◌, ◌<◌, ◌≡◌, ◌⊎◌, inl, inr, refl, ◌∙◌, ◌==◌, ==_iff,
  Bool-cases, u32, u64, arith,
}
use mathlib.Core.Path.{subst}
use osfort.Memory.{Mem, store8, store32, store_bytes}
use osfort.Memory.Laws.{store_bytes_frame}
use osfort.Print.Screen.{Graphics}

-- The loop over one row at pixel j with n pixels left: row is the address of the row.
unfoldable pub clear_row : ℕ → ℕ → ℕ → ℕ → Mem → Mem
clear_row zero j row color m = m
clear_row (suc n) j row color m = clear_row n (j + 1) row color (store32 m (u64 (row + j)) color)

-- The loop over the rows at row i with n rows left.
unfoldable pub clear_rows : ℕ → ℕ → Graphics → ℕ → Mem → Mem
clear_rows zero i g color m = m
clear_rows (suc n) i g color m =
    clear_rows n (i + 1) g color
      (clear_row g.width 0 (u64 (g.framebuffer_base + u64 (i * g.pixels_per_scanline))) color m)

-- The line that is cleared is the cursor's, whatever the argument.
unfoldable pub clear_line : Graphics → ℕ → Graphics
clear_line g line = record g {
  mem = clear_row g.width 0 (u64 (g.framebuffer_base + u32 (g.y * g.pixels_per_scanline))) 0 g.mem;
  x = 0;
}

unfoldable pub clear_screen : Graphics → ℕ → Graphics
clear_screen g color = record g { mem = clear_rows g.height 0 g color g.mem; x = 0; y = 0 }

-- The first byte of a write is the lowest of the value.
store_bytes-low : (n : ℕ) (m : Mem) (a v : ℕ) → store_bytes (suc n) m a v a ≡ v % 256
unfolding store_bytes store8
store_bytes-low n m a v =
    store_bytes_frame n (store8 m a v) (a + 1) _ a (inl (omega arith)) ∙ ground arith

clear_row_frame :
    (n j row color : ℕ) (m : Mem) (x : ℕ)
    → row + j + n ≤ 2 ^ 64
    → (x < row + j) ⊎ (row + j + n + 3 ≤ x)
    → clear_row n j row color m x ≡ m x
unfolding clear_row
clear_row_frame zero j row color m x fits out = refl
clear_row_frame (suc n) j row color m x fits out =
    let exact : u64 (row + j) ≡ row + j = omega arith in
    rw exact (
      clear_row_frame n (j + 1) row color (store32 m (row + j) color) x (omega arith) (omega arith)
      ∙ store_bytes_frame 4 m (row + j) color x (omega arith))

clear_row-low :
    (n j row color : ℕ) (m : Mem) (x : ℕ)
    → row + j + n ≤ 2 ^ 64
    → row + j ≤ x
    → x < row + j + n
    → clear_row n j row color m x ≡ color % 256
unfolding clear_row
clear_row-low zero j row color m x fits p q = absurd (omega arith)
clear_row-low (suc n) j row color m x fits p q =
    let exact : u64 (row + j) ≡ row + j = omega arith in
    elim (Bool-cases (row + j == x)) [
      | inl here ↦
          let e : row + j ≡ x = (==_iff _ _).0 here in
          rw exact (
            rw e (
              clear_row_frame n (j + 1) row color (store32 m x color) x (omega arith)
                (inl (omega arith))
              ∙ store_bytes-low 3 m x color))
      | inr later ↦ clear_row-low n (j + 1) row color _ x (omega arith) (ground arith) (omega arith)
    ]

module _ (g : Graphics) (color : ℕ) (narrow : g.width ≤ g.pixels_per_scanline) where
  abbrev row : ℕ → ℕ
  row i = g.framebuffer_base + i * g.pixels_per_scanline

  -- The address of row i does not wrap.
  row-u64 :
      (i n : ℕ)
      → row (i + n) < 2 ^ 64
      → u64 (g.framebuffer_base + u64 (i * g.pixels_per_scanline)) ≡ row i
  row-u64 i n fits = omega (arith, product i n)
    where
      product :
          (i n : ℕ)
          → (i + n) * g.pixels_per_scanline ≡ i * g.pixels_per_scanline + n * g.pixels_per_scanline
      product i n = omega arith

  clear_rows_frame :
      (n i : ℕ) (m : Mem) (x : ℕ)
      → row (i + n) < 2 ^ 64
      → (x < row i) ⊎ (row (i + n) + 3 ≤ x)
      → clear_rows n i g color m x ≡ m x
  unfolding clear_rows
  clear_rows_frame zero i m x fits out = refl
  clear_rows_frame (suc n) i m x fits out = rw (row-u64 i (suc n) fits) (
      clear_rows_frame n (i + 1) _ x (omega arith) (omega arith)
      ∙ clear_row_frame g.width 0 (row i) color m x (omega arith) (omega arith))

  clear_rows-low :
      (n i : ℕ) (m : Mem) (r c : ℕ)
      → row (i + n) < 2 ^ 64
      → i ≤ r
      → r < i + n
      → c < g.width
      → clear_rows n i g color m (row r + c) ≡ color % 256
  unfolding clear_rows
  clear_rows-low zero i m r c fits p q h = absurd (omega arith)
  clear_rows-low (suc n) i m r c fits p q h = elim (Bool-cases (i == r)) [
    | inl here ↦
        let e : i ≡ r = (==_iff i r).0 here in
        let fits' : row (r + suc n) < 2 ^ 64 = subst (λ (t : ℕ). row (t + suc n) < 2 ^ 64) e fits in
        rw (row-u64 i (suc n) fits) (
          rw e (
            clear_rows_frame n (r + 1) _ (row r + c) (omega arith) (inl (omega arith))
            ∙ clear_row-low g.width 0 (row r) color m (row r + c) (omega arith) (omega arith)
                (omega arith)))
    | inr later ↦ clear_rows-low n (i + 1) _ r c (omega arith) (ground arith) (omega arith) h
  ]

-- On a screen no wider than its scan line, that ends below 2 ^ 64: clear_screen puts the low byte of
-- the color into the byte at base + r * pixels_per_scanline + c for each row r and column c, and
-- writes at no address below base and none from base + height * pixels_per_scanline + 3 on, though a
-- pixel takes four bytes.
pub clear_screen-low :
    (g : Graphics) (color r c x : ℕ)
    → g.width ≤ g.pixels_per_scanline
    → g.framebuffer_base + g.height * g.pixels_per_scanline < 2 ^ 64
    → r < g.height
    → c < g.width
    → (x < g.framebuffer_base) ⊎ (g.framebuffer_base + g.height * g.pixels_per_scanline + 3 ≤ x)
    → ((clear_screen g color).mem (g.framebuffer_base + r * g.pixels_per_scanline + c)
        ≡ color % 256)
      × ((clear_screen g color).mem x ≡ g.mem x)
unfolding clear_screen
clear_screen-low g color r c x narrow fits h w out = (
  clear_rows-low g color narrow g.height 0 g.mem r c (omega arith) (omega arith) (omega arith) w,
  clear_rows_frame g color narrow g.height 0 g.mem x (omega arith) (omega arith),
)
