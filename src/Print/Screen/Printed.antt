-- ===== src/Print/Screen/Printed.antt =====
-- What boot/kernel/print.c, kprintf, puts out.
use osfort.Base.{
  ℕ, ◌+◌, ◌-◌, ◌^◌, ◌≤◌, ◌<◌, ◌≡◌, ◌≢◌, ◌⊎◌, refl, ap, ◌∙◌, sym, true, List, [], ◌∷◌, ◌++◌, some,
  ltb, ne→==, inl, inr, Bool-cases, get_or, arith,
}
use osfort.Print.{itoa, hex}
use osfort.Print.Decimal.{value, IsDecimal, itoa-IsDecimal}
use osfort.Print.Wrapped.{itoa-value}
use osfort.Print.Hexadecimal.{IsHexadecimal, hex-IsHexadecimal}
use osfort.Print.Screen.{Graphics, kputc, kputs}
use osfort.Print.Screen.Format.{
  Arg, int, str, extend, is_directive, directive, kprintf, up_to_nul, kputs-append,
}

-- What a format is made of: a character; a percent sign that begins no directive; and %d and %x of an
-- `int` and %s of a text.
pub data Piece : Type 0 where
  character : ℕ → Piece
  percent : Piece
  decimal : ℕ → Piece
  hexadecimal : ℕ → Piece
  text : List ℕ → Piece

-- The format, with its NUL, and the arguments.
unfoldable pub format_of : List Piece → List ℕ
format_of [] = 0 ∷ []
format_of (character c ∷ ps) = c ∷ format_of ps
format_of (percent ∷ ps) = b'%' ∷ format_of ps
format_of (decimal n ∷ ps) = b'%' ∷ b'd' ∷ format_of ps
format_of (hexadecimal n ∷ ps) = b'%' ∷ b'x' ∷ format_of ps
format_of (text t ∷ ps) = b'%' ∷ b's' ∷ format_of ps

unfoldable pub args_of : List Piece → List Arg
args_of [] = []
args_of (character c ∷ ps) = args_of ps
args_of (percent ∷ ps) = args_of ps
args_of (decimal n ∷ ps) = int n ∷ args_of ps
args_of (hexadecimal n ∷ ps) = int n ∷ args_of ps
args_of (text t ∷ ps) = str t ∷ args_of ps

-- A character is neither NUL nor a percent sign, what follows a percent sign that begins no directive
-- is none of d, s and x, and an `int` has 32 bits.
unfoldable pub IsFormat : List Piece → Type 0
IsFormat [] = true ≡ true
IsFormat (character c ∷ ps) = (c ≢ 0) × ((c ≢ b'%') × IsFormat ps)
IsFormat (percent ∷ ps) =
    (get_or (format_of ps) 0 0 ≢ b'd')
    × ((get_or (format_of ps) 0 0 ≢ b's') × ((get_or (format_of ps) 0 0 ≢ b'x') × IsFormat ps))
IsFormat (decimal n ∷ ps) = (n < 2 ^ 32) × IsFormat ps
IsFormat (hexadecimal n ∷ ps) = (n < 2 ^ 32) × IsFormat ps
IsFormat (text t ∷ ps) = IsFormat ps

-- The 64 bits of the `int` with the 32 bits n: those of a negative one go on with ones.
abbrev pub IsExtended : ℕ → ℕ → Type 0
IsExtended n v = ((n < 2 ^ 31) × (v ≡ n)) ⊎ ((2 ^ 31 ≤ n) × (v + 2 ^ 32 ≡ n + 2 ^ 64))

-- The decimal text of a number below 10 ^ 19; that of one from there on has 20 digits, of which the
-- first is 0, and stands for 10 ^ 19 less.
abbrev pub ShowsDecimal : List ℕ → ℕ → Type 0
ShowsDecimal d v =
    ((v < 10 ^ 19) × IsDecimal d v)
    ⊎ ((10 ^ 19 ≤ v)
        × ((get_or d 0 0 ≡ b'0')
            × ((value d 20 ≡ v - 10 ^ 19)
                × ((get_or d 20 0 ≡ 0)
                    × ((j : ℕ) → j < 20 → (b'0' ≤ get_or d j 0) × (get_or d j 0 ≤ b'9'))))))

-- The text that the pieces stand for.
unfoldable pub Printed : List Piece → List ℕ → Type 0
Printed [] t = t ≡ []
Printed (character c ∷ ps) t = (r : List ℕ) × ((t ≡ c ∷ r) × Printed ps r)
Printed (percent ∷ ps) t = Printed ps t
Printed (decimal n ∷ ps) t =
    (v : ℕ) × (d : List ℕ) × (r : List ℕ) × (IsExtended n v
      × (ShowsDecimal d v × ((t ≡ up_to_nul d ++ r) × Printed ps r)))
Printed (hexadecimal n ∷ ps) t =
    (v : ℕ) × (d : List ℕ) × (r : List ℕ) × (IsExtended n v
      × (IsHexadecimal d v × ((t ≡ up_to_nul d ++ r) × Printed ps r)))
Printed (text s ∷ ps) t = (r : List ℕ) × ((t ≡ up_to_nul s ++ r) × Printed ps r)

extend-IsExtended : (n : ℕ) → n < 2 ^ 32 → IsExtended n (extend n) × (extend n < 2 ^ 64)
extend-IsExtended n h = elim (Bool-cases (ltb n (2 ^ 31))) [
  | inl low ↦ rw low (inl (ground (arith, low), refl), omega (arith, h))
  | inr high ↦ rw high (inr (ground (arith, high), omega (arith, h)), omega (arith, h))
]

itoa-ShowsDecimal : (v : ℕ) → v < 2 ^ 64 → (d : List ℕ) × ((itoa v ≡ some d) × ShowsDecimal d v)
itoa-ShowsDecimal v h = elim (Bool-cases (ltb v (10 ^ 19))) [
  | inl low ↦
      let small : v < 10 ^ 19 = ground (arith, low) in
      let (d, (e, shows)) = itoa-IsDecimal v small in (d, (e, inl (small, shows)))
  | inr high ↦
      let big : 10 ^ 19 ≤ v = ground (arith, high) in
      let (d, (runs, first, rest, nul, digits)) = itoa-value v big h in
      (d, (runs, inr (big, (first, (rest, (nul, digits))))))
]

-- One step of kprintf for each kind of piece.
kprintf-character :
    (g : Graphics) (c : ℕ) (f : List ℕ) (args : List Arg)
    → c ≢ 0
    → c ≢ b'%'
    → kprintf g (c ∷ f) args ≡ kprintf (kputc g c) f args
unfolding kprintf
kprintf-character g c [] args some_char plain =
    rw (ne→== c 0 some_char) (rw (ne→== c b'%' plain) refl)
kprintf-character g c (next ∷ f) args some_char plain =
    rw (ne→== c 0 some_char) (rw (ne→== c b'%' plain) refl)

kprintf-percent :
    (g : Graphics) (f : List ℕ) (args : List Arg)
    → get_or f 0 0 ≢ b'd'
    → get_or f 0 0 ≢ b's'
    → get_or f 0 0 ≢ b'x'
    → kprintf g (b'%' ∷ f) args ≡ kprintf g f args
unfolding kprintf
kprintf-percent g [] args d s x = refl
kprintf-percent g (next ∷ f) args d s x =
    rw (ne→== next b'd' d, ne→== next b's' s, ne→== next b'x' x) refl

kprintf-directive :
    (g : Graphics) (c : ℕ) (f t : List ℕ) (args rest : List Arg)
    → is_directive c ≡ true
    → directive c args ≡ some (t, rest)
    → kprintf g (b'%' ∷ c ∷ f) args ≡ kprintf (kputs g t) f rest
unfolding kprintf
kprintf-directive g c f t args rest e shows = rw (e, shows) refl

kputs-character :
    (g : Graphics) (c : ℕ) (t : List ℕ) → c ≢ 0 → kputs g (c ∷ t) ≡ kputs (kputc g c) t
unfolding kputs
kputs-character g c t h = rw (ne→== c 0 h) refl

-- For a format that is made of pieces, with the arguments that they take: kprintf puts out the text
-- that the pieces stand for. A character stands for itself; a percent sign that begins no directive
-- for nothing; %d for the decimal text of the 64 bits of its `int`, which loses 10 ^ 19 from there on;
-- %x for their 16 digits in base 16; and %s for its text up to the NUL.
pub kprintf-Printed :
    (g : Graphics) (ps : List Piece)
    → IsFormat ps
    → (t : List ℕ) × (Printed ps t × (kprintf g (format_of ps) (args_of ps) ≡ some (kputs g t)))
unfolding IsFormat Printed format_of args_of directive
kprintf-Printed g [] h = ([], (refl, unfold kprintf kputs in refl))
kprintf-Printed g (character c ∷ ps) (some_char, (plain, h)) =
    let (t, (p, e)) = kprintf-Printed (kputc g c) ps h in
    (
      c ∷ t,
      (
        (t, (refl, p)),
        kprintf-character g c (format_of ps) (args_of ps) some_char plain
            ∙ e
            ∙ ap some (sym (kputs-character g c t some_char)),
      ),
    )
kprintf-Printed g (percent ∷ ps) (d, (s, (x, h))) =
    let (t, (p, e)) = kprintf-Printed g ps h in
    (t, (p, kprintf-percent g (format_of ps) (args_of ps) d s x ∙ e))
kprintf-Printed g (decimal n ∷ ps) (small, h) =
    let (extended, fits) = extend-IsExtended n small in
    let (d, (runs, shows)) = itoa-ShowsDecimal (extend n) fits in
    let (t, (p, e)) = kprintf-Printed (kputs g d) ps h in
    (
      up_to_nul d ++ t,
      (
        (extend n, d, t, (extended, (shows, (refl, p)))),
        kprintf-directive g b'd' (format_of ps) d (int n ∷ args_of ps) (args_of ps) refl
              (rw runs refl)
            ∙ e
            ∙ ap some (sym (kputs-append g d t)),
      ),
    )
kprintf-Printed g (hexadecimal n ∷ ps) (small, h) =
    let (extended, fits) = extend-IsExtended n small in
    let d = hex (extend n) in
    let (t, (p, e)) = kprintf-Printed (kputs g d) ps h in
    (
      up_to_nul d ++ t,
      (
        (extend n, d, t, (extended, (hex-IsHexadecimal (extend n) fits, (refl, p)))),
        kprintf-directive g b'x' (format_of ps) d (int n ∷ args_of ps) (args_of ps) refl refl
            ∙ e
            ∙ ap some (sym (kputs-append g d t)),
      ),
    )
kprintf-Printed g (text s ∷ ps) h =
    let (t, (p, e)) = kprintf-Printed (kputs g s) ps h in
    (
      up_to_nul s ++ t,
      (
        (t, (refl, p)),
        kprintf-directive g b's' (format_of ps) s (str s ∷ args_of ps) (args_of ps) refl refl
            ∙ e
            ∙ ap some (sym (kputs-append g s t)),
      ),
    )
