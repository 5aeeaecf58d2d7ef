-- ===== src/Print.antt =====
-- boot/kernel/print.c: the texts of numbers, pow, itoa, hex and hexbyte; the children have the screen and the
-- font. The static buffers are lists of bytes; each call clears its buffer first.
pub mod Hexadecimal
pub mod Power
pub mod Decimal
pub mod Wrapped
pub mod Font
pub mod Screen
use osfort.Base.{
  ℕ, zero, suc, ◌+◌, ◌-◌, ◌*◌, ◌/◌, ◌%◌, List, [], ◌∷◌, get_or, set, replicate, Option, none, some,
  if◌then◌else◌, ltb, leb, ◌==◌, bit_and, u8, u64, ◌<<<◌, ◌>>>◌,
}

-- The loop multiplies b - 1 times.
unfoldable pub pow_loop : ℕ → ℕ → ℕ → ℕ
pow_loop zero a temp = temp
pow_loop (suc n) a temp = pow_loop n a (u64 (temp * a))

unfoldable pub pow : ℕ → ℕ → ℕ
pow a zero = 1
pow a (suc n) = pow_loop n a a

abbrev pub hex_digits : List ℕ
hex_digits = 48 ∷ 49 ∷ 50 ∷ 51 ∷ 52 ∷ 53 ∷ 54 ∷ 55 ∷ 56 ∷ 57 ∷ 65 ∷ 66 ∷ 67 ∷ 68 ∷ 69 ∷ 70 ∷ []

-- The digits of weight 16 ^ i, 16 ^ (i + 1), …, at the places top - i, top - i - 1, ….
unfoldable pub hex_from : ℕ → ℕ → ℕ → ℕ → List ℕ → List ℕ
hex_from zero i top num temp = temp
hex_from (suc n) i top num temp =
    let byte = u8 (bit_and num (0xf <<< (i * 4)) >>> (i * 4)) in
    hex_from n (i + 1) top num (set temp (top - i) (get_or hex_digits byte 0))

unfoldable pub hex : ℕ → List ℕ
hex num = hex_from 16 0 15 num (replicate 17 0)

unfoldable pub hexbyte : ℕ → List ℕ
hexbyte num = hex_from 2 0 1 num (replicate 3 0)

-- `for (i = pow(10, 18); num < i; i /= 10) k++`, with fuel; `none` is a loop that goes on.
unfoldable pub scan : ℕ → ℕ → ℕ → ℕ → Option ℕ
scan zero num i k = none
scan (suc fuel) num i k =
    let rest = scan fuel num (i / 10) (k + 1) in if ltb num i then rest else some k

-- `temp[i] = num % (j * 10) / j + 48` for i up to 20 - k, where j = pow(10, 19 - i - k).
unfoldable pub itoa_from : ℕ → ℕ → ℕ → ℕ → List ℕ → List ℕ
itoa_from zero i k num temp = temp
itoa_from (suc n) i k num temp =
    let j = pow 10 (19 - i - k) in
    itoa_from n (i + 1) k num (set temp i (u8 (num % u64 (j * 10) / j + 48)))

unfoldable pub itoa_after : ℕ → List ℕ → Option ℕ → Option (List ℕ)
itoa_after num temp none = none
itoa_after num temp (some k) =
    if k == 20 then some (set temp 0 48) else some (itoa_from (20 - k) 0 k num temp)

-- The fuel of 20 covers the powers 10 ^ 18, …, 1 and the 0 after them.
unfoldable pub itoa : ℕ → Option (List ℕ)
itoa num =
    let blank = replicate 21 0 in
    if leb (pow 10 19) num
    then itoa_after num (set blank 0 (u8 (num / pow 10 19 + 48))) (scan 20 num (pow 10 18) 0)
    else itoa_after num blank (scan 20 num (pow 10 18) 1)
