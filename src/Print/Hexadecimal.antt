-- ===== src/Print/Hexadecimal.antt =====
-- hex and hexbyte write the number in base 16.
use native.Mathlib.Nat.{pow-suc, div-eq_of_lt, div-le_self}
use osfort.Base.{
  ℕ, suc, ◌+◌, ◌-◌, ◌*◌, ◌/◌, ◌%◌, ◌^◌, ◌≤◌, ◌<◌, ◌≡◌, refl, sym, ap, ◌∙◌, List, get_or, set,
  replicate, length, length-set, length-replicate, zero, get_or-set_self, get_or-set_ne, ltb,
  if◌then◌else◌, bit_and, min, inl, inr, ap₂, u8, ◌<<<◌, ◌>>>◌, arith,
}
use osfort.Base.Arith.{div-pow-last, eq-or-later}
use osfort.Base.Bits.{digit-bit_and, digit-shr, digit-shl_high, digit_ext, bit_and-mask, bit_and-lt}
use osfort.Base.Field.{pow-add}
use osfort.Print.{hex_digits, hex_from, hex, hexbyte}

-- The value of a digit's character, and of the first n characters of a text.
unfoldable pub digit_value : ℕ → ℕ
digit_value c = if ltb c 65 then c - 48 else c - 55

unfoldable pub value : List ℕ → ℕ → ℕ
value t zero = 0
value t (suc n) = value t n * 16 + digit_value (get_or t n 0)

digit_char : (d : ℕ) → d < 16 → digit_value (get_or hex_digits d 0) ≡ d
unfolding digit_value
digit_char d h = ground arith

-- Masking a field in place and shifting it down.
and-shifted : (x q o : ℕ) → x < 2 ^ 64 → bit_and x (q * 2 ^ o) / 2 ^ o ≡ bit_and (x / 2 ^ o) q
and-shifted x q o h =
    digit_ext 64 _ _
      (omega (arith, bit_and-lt 64 x (q * 2 ^ o) h, div-le_self (bit_and x (q * 2 ^ o)) (2 ^ o)))
      (bit_and-lt 64 _ _ (omega (arith, h, div-le_self x (2 ^ o))))
      (λ i p.
        digit-shr (bit_and x (q * 2 ^ o)) o i
        ∙ digit-bit_and x (q * 2 ^ o) (o + i)
        ∙ ap₂ min (sym (digit-shr x o i)) (digit-shl_high q o i)
        ∙ sym (digit-bit_and (x / 2 ^ o) q i))

nibble :
    (x i : ℕ) → x < 2 ^ 64 → u8 (bit_and x (0xf <<< (i * 4)) >>> (i * 4)) ≡ x / 2 ^ (i * 4) % 16
nibble x i h = omega (arith, and-shifted x 0xf (i * 4) h, bit_and-mask 4 (x / 2 ^ (i * 4)))

-- Places above those that are written keep their characters.
hex_from-keeps :
    (n i top num j : ℕ) (t : List ℕ)
    → n + i ≤ suc top
    → top < i + j
    → get_or (hex_from n i top num t) j 0 ≡ get_or t j 0
unfolding hex_from
hex_from-keeps zero i top num j t g h = refl
hex_from-keeps (suc n) i top num j t g h =
    hex_from-keeps n (i + 1) top num j _ (omega arith) (omega arith)
    ∙ get_or-set_ne t (top - i) j _ 0 (omega arith)

-- The place of the digit of weight 16 ^ i'.
hex_from-digit :
    (n i top num i' : ℕ) (t : List ℕ)
    → n + i ≤ suc top
    → top < length t
    → num < 2 ^ 64
    → i ≤ i'
    → i' < n + i
    → get_or (hex_from n i top num t) (top - i') 0 ≡ get_or hex_digits (num / 2 ^ (i' * 4) % 16) 0
unfolding hex_from
hex_from-digit zero i top num i' t g room small lo hi = absurd (omega arith)
hex_from-digit (suc n) i top num i' t g room small lo hi =
    let byte = u8 (bit_and num (0xf <<< (i * 4)) >>> (i * 4)) in
    let t' = set t (top - i) (get_or hex_digits byte 0) in
    elim (eq-or-later i i' lo) [
      | inl e ↦
          ap (λ k. get_or (hex_from n (i + 1) top num t') (top - k) 0) (sym e)
          ∙ hex_from-keeps n (i + 1) top num (top - i) t' (omega arith) (omega arith)
          ∙ get_or-set_self t (top - i) _ 0 (omega arith)
          ∙ ap (λ d. get_or hex_digits d 0) (nibble num i small)
          ∙ ap (λ k. get_or hex_digits (num / 2 ^ (k * 4) % 16) 0) e
      | inr later ↦
          hex_from-digit n (i + 1) top num i' t' (omega arith)
            (omega (arith, length-set t (top - i) (get_or hex_digits byte 0))) small (omega arith)
            (omega arith)
    ]

sixteen : (k : ℕ) → 2 ^ (k * 4) ≡ 16 ^ k
sixteen zero = refl
sixteen (suc k) =
    ap (λ t. 2 ^ t) (omega arith)
    ∙ pow-add 2 (k * 4) 4
    ∙ ap (λ t. t * 16) (sixteen k)
    ∙ sym (pow-suc 16 k)

-- The first n of the places 0 to top read as the number without its last top + 1 - n digits.
value-hex_from :
    (top num n : ℕ)
    → num < 2 ^ 64
    → num < 16 ^ suc top
    → n ≤ suc top
    → value (hex_from (suc top) 0 top num (replicate (top + 2) 0)) n ≡ num / 16 ^ (suc top - n)
unfolding value
value-hex_from top num zero small fits h =
    let whole : suc top - 0 ≡ suc top = omega arith in
    omega (arith, div-eq_of_lt fits, ap (λ k. num / 16 ^ k) whole)
value-hex_from top num (suc n) small fits h =
    let d = top - n in
    let place : top - d ≡ n = omega arith in
    let blank : List ℕ = replicate (top + 2) 0 in
    let digit_at =
      hex_from-digit (suc top) 0 top num d blank (omega arith)
        (omega (arith, length-replicate {A = ℕ} (top + 2) 0)) small (omega arith) (omega arith) in
    let before : suc top - n ≡ suc d = omega arith in
    let after : suc top - suc n ≡ d = omega arith in
    omega (
      arith,
      ap (λ k. num / 16 ^ k) after,
      value-hex_from top num n small fits (omega arith),
      ap (λ k. digit_value (get_or (hex_from (suc top) 0 top num blank) k 0)) place,
      ap digit_value digit_at,
      digit_char (num / 2 ^ (d * 4) % 16) (omega arith),
      ap (λ k. num / 16 ^ k) before,
      div-pow-last 16 num d,
      ap (λ k. num / k % 16) (sixteen d),
    )

-- For num of 64 bits and byte of 8 bits: character 15 - i of hex(num) is the digit of weight 16 ^ i of
-- num, for every i below 16, so that the text reads as num in base 16; a NUL follows; and the same for
-- the two characters of hexbyte(byte).
hex-value :
    (num byte i j : ℕ)
    → num < 2 ^ 64
    → byte < 2 ^ 8
    → i < 16
    → j < 2
    → (get_or (hex num) (15 - i) 0 ≡ get_or hex_digits (num / 16 ^ i % 16) 0)
      × (value (hex num) 16 ≡ num)
      × (get_or (hex num) 16 0 ≡ 0)
      × (get_or (hexbyte byte) (1 - j) 0 ≡ get_or hex_digits (byte / 16 ^ j % 16) 0)
      × (value (hexbyte byte) 2 ≡ byte)
      × (get_or (hexbyte byte) 2 0 ≡ 0)
unfolding hex hexbyte
hex-value num byte i j h h' hi hj = (
  hex_from-digit 16 0 15 num i (replicate 17 0) (omega arith) (omega arith) h (omega arith)
        (omega arith)
      ∙ ap (λ k. get_or hex_digits (num / k % 16) 0) (sixteen i),
  value-hex_from 15 num 16 h h (omega arith) ∙ omega arith,
  hex_from-keeps 16 0 15 num 16 (replicate 17 0) (omega arith) (omega arith),
  hex_from-digit 2 0 1 byte j (replicate 3 0) (omega arith) (omega arith) (omega arith)
        (omega arith) (omega arith)
      ∙ ap (λ k. get_or hex_digits (byte / k % 16) 0) (sixteen j),
  value-hex_from 1 byte 2 (omega arith) h' (omega arith) ∙ omega arith,
  hex_from-keeps 2 0 1 byte 2 (replicate 3 0) (omega arith) (omega arith),
)

-- The character of a digit below 16, and the text of 16 digits of a number, with a NUL behind it.
unfoldable pub digit_character : ℕ → ℕ
digit_character d = if ltb d 10 then d + b'0' else d - 10 + b'A'

abbrev pub IsHexadecimal : List ℕ → ℕ → Type 0
IsHexadecimal t num =
    (get_or t 16 0 ≡ 0)
    × ((i : ℕ) → i < 16 → get_or t (15 - i) 0 ≡ digit_character (num / 16 ^ i % 16))

digit_character_lem : (d : ℕ) → d < 16 → get_or hex_digits d 0 ≡ digit_character d
unfolding digit_character
digit_character_lem d h = ground arith

pub hex-IsHexadecimal : (num : ℕ) → num < 2 ^ 64 → IsHexadecimal (hex num) num
hex-IsHexadecimal num h =
    let parts = λ (i : ℕ) (low : i < 16). hex-value num 0 i 0 h (omega arith) low (omega arith) in
    (
      (parts 0 (omega arith)).2,
      λ i low. (parts i low).0 ∙ digit_character_lem (num / 16 ^ i % 16) (omega arith),
    )
