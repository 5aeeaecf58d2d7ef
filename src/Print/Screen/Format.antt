-- ===== src/Print/Screen/Format.antt =====
-- boot/kernel/print.c, kprintf, and texts up to their NUL.
use mathlib.Core.Option
use osfort.Base.{
  ℕ, ◌+◌, ◌-◌, ◌^◌, ◌≡◌, refl, List, [], ◌∷◌, ◌++◌, Option, none, some, Bool, ◌||◌, if◌then◌else◌,
  ltb, ◌==◌, inl, inr, Bool-cases,
}
use osfort.Print.{itoa, hex}
use osfort.Print.Screen.{Graphics, kputc, kputs}

-- What the caller passes for a directive: the bit pattern of an `int`, or a C text.
pub data Arg : Type 0 where
  int : ℕ → Arg
  str : List ℕ → Arg

-- An `int` passed where `uint64_t` is wanted.
abbrev pub extend : ℕ → ℕ
extend n = if ltb n (2 ^ 31) then n else n + (2 ^ 64 - 2 ^ 32)

abbrev pub is_directive : ℕ → Bool
is_directive c = c == b'd' || c == b's' || c == b'x'

-- The text for directive c and the arguments left. `none`: the argument is missing or of another type,
-- which C leaves undefined.
unfoldable pub directive : ℕ → List Arg → Option (List ℕ × List Arg)
directive c [] = none
directive c (int n ∷ args) =
    if c == b'd'
    then Option.map (λ t. (t, args)) (itoa (extend n))
    else if c == b'x'
    then some (hex (extend n), args)
    else none
directive c (str t ∷ args) = if c == b's' then some (t, args) else none

-- kprintf at the rest of its format.
unfoldable pub kprintf : Graphics → List ℕ → List Arg → Option Graphics
kprintf g [] args = some g
kprintf g (ch ∷ []) args =
    if ch == 0 then some g else if ch == b'%' then some g else some (kputc g ch)
kprintf g (ch ∷ next ∷ format) args =
    let plain = kprintf (kputc g ch) (next ∷ format) args in
    let dropped = kprintf g (next ∷ format) args in
    let shown = elim (directive next args) as (λ _. Option Graphics) [
      | none ↦ none
      | some (t, args') ↦ kprintf (kputs g t) format args'
    ] in
    if ch == 0
    then some g
    else if ch == b'%'
    then (if is_directive next then shown else dropped)
    else plain

-- A text up to its NUL.
unfoldable pub up_to_nul : List ℕ → List ℕ
up_to_nul [] = []
up_to_nul (c ∷ t) = if c == 0 then [] else c ∷ up_to_nul t

pub kputs-append : (g : Graphics) (t r : List ℕ) → kputs g (up_to_nul t ++ r) ≡ kputs (kputs g t) r
unfolding kputs up_to_nul
kputs-append g [] r = refl
kputs-append g (c ∷ t) r = elim (Bool-cases (c == 0)) [
  | inl last ↦ rw last refl
  | inr more ↦ rw more (rw more (kputs-append (kputc g c) t r))
]
