-- ===== src/Print/Font/Laws.antt =====
-- Which characters have a glyph, and the size of every glyph.
use osfort.Base.{
  ℕ, suc, ◌+◌, ◌≡◌, List, [], ◌∷◌, Option, none, some, Bool, true, false, refl, ◌∙◌, length, arith,
  ltb, leb, ◌&&◌, ◌==◌,
}
use osfort.Print.Font.{char_to_bitmap, cases, choose, font_height}
use osfort.Sys.Ctype.{pos, isprint}

unfoldable pub is_some : Option (List ℕ) → Bool
is_some none = false
is_some (some g) = true

unfoldable pub rows_fit : List ℕ → Bool
rows_fit [] = true
rows_fit (r ∷ rs) = ltb r 256 && rows_fit rs

-- A glyph has its 18 rows, of 8 bits each.
unfoldable pub is_glyph : List ℕ → Bool
is_glyph g = length g == font_height && rows_fit g

-- The keys count up from n, and each stands with a glyph.
in_order : ℕ → List (ℕ × List ℕ) → Bool
in_order n [] = true
in_order n ((k, g) ∷ rest) = (k == n) && (is_glyph g && in_order (suc n) rest)

tail-in_order :
    (n k : ℕ) (g : List ℕ) (cs : List (ℕ × List ℕ))
    → in_order n ((k, g) ∷ cs) ≡ true
    → (k ≡ n) × ((is_glyph g ≡ true) × (in_order (suc n) cs ≡ true))
unfolding in_order
tail-in_order n k g cs h = ground arith

choose-defined :
    (cs : List (ℕ × List ℕ)) (n c : ℕ)
    → in_order n cs ≡ true
    → is_some (choose cs c) ≡ (leb n c && ltb c (n + length cs))
unfolding is_some
choose-defined [] n c h = ground arith
choose-defined ((k, g) ∷ cs) n c h =
    let (here, (_, later)) = tail-in_order n k g cs h in
    let rest = choose-defined cs (suc n) c later in ground (arith, here, rest)

choose-is_glyph :
    (cs : List (ℕ × List ℕ)) (n c : ℕ) (glyph : List ℕ)
    → in_order n cs ≡ true
    → choose cs c ≡ some glyph
    → is_glyph glyph ≡ true
choose-is_glyph [] n c glyph h e = ground (arith, e)
choose-is_glyph ((k, g) ∷ cs) n c glyph h e =
    let (here, (fits, later)) = tail-in_order n k g cs h in
    let rest = choose-is_glyph cs (suc n) c glyph later in ground (arith, e, fits, rest)

-- char_to_bitmap has a glyph for exactly the bytes that isprint of ctype.c accepts.
pub char_to_bitmap-isprint : (c : ℕ) → is_some (char_to_bitmap c) ≡ isprint (pos c)
unfolding char_to_bitmap isprint in_order is_glyph rows_fit
char_to_bitmap-isprint c = choose-defined cases 32 c refl ∙ ground arith

-- Every glyph has 18 rows of 8 bits: what kputc reads of it is there.
pub char_to_bitmap-is_glyph :
    (c : ℕ) (glyph : List ℕ) → char_to_bitmap c ≡ some glyph → is_glyph glyph ≡ true
unfolding char_to_bitmap in_order is_glyph rows_fit
char_to_bitmap-is_glyph c glyph e = choose-is_glyph cases 32 c glyph refl e
