-- ===== src/Base/Bits.antt =====
-- The binary digits of a number, and what `&`, `|`, `~` and the shifts do to them at every width.
mod Step
pub mod Disjoint
use Step.{bit_or_step, bit_and_step}
use osfort.Base.Arith.{div-pow-suc, mod-pow-suc}
use Prim.Native.Nat.{
  ℕ, zero, suc, ◌+◌, ◌-◌, ◌*◌, ◌/◌, ◌%◌, ◌^◌, ◌≤◌, ◌<◌, bit_and, bit_or, min, max, bit_and-bitwise,
}
use mathlib.Core.Path.{◌≡◌, refl, sym, ap, ◌∙◌}
use native.Mathlib.Nat.{pow-suc, one-le-pow}
use native.Mathlib.Omega.{arith}

-- Digit i of n: 0 or 1.
abbrev pub digit : ℕ → ℕ → ℕ
digit n zero = n % 2
digit n (suc i) = digit (n / 2) i

pub bit_and-zero_left : (b : ℕ) → bit_and 0 b ≡ 0
bit_and-zero_left b = bit_and-bitwise 0 b

lt-pow : (n : ℕ) → n < 2 ^ n
lt-pow zero = omega arith
lt-pow (suc n) = omega (arith, pow-suc 2 n, lt-pow n)

pub digit-lt : (n i : ℕ) → digit n i < 2
digit-lt n zero = omega arith
digit-lt n (suc i) = digit-lt (n / 2) i

pub digit-zero : (i : ℕ) → digit 0 i ≡ 0
digit-zero zero = refl
digit-zero (suc i) = digit-zero i

pub digit-bit_and : (a b i : ℕ) → digit (bit_and a b) i ≡ min (digit a i) (digit b i)
digit-bit_and a b zero = omega (arith, bit_and_step a b)
digit-bit_and a b (suc i) =
    let e : bit_and a b / 2 ≡ bit_and (a / 2) (b / 2) = omega (arith, bit_and_step a b) in
    ap (λ (t : ℕ). digit t i) e ∙ digit-bit_and (a / 2) (b / 2) i

pub digit-bit_or : (a b i : ℕ) → digit (bit_or a b) i ≡ max (digit a i) (digit b i)
digit-bit_or a b zero = omega (arith, bit_or_step a b)
digit-bit_or a b (suc i) =
    let e : bit_or a b / 2 ≡ bit_or (a / 2) (b / 2) = omega (arith, bit_or_step a b) in
    ap (λ (t : ℕ). digit t i) e ∙ digit-bit_or (a / 2) (b / 2) i

add-zero_left : (n : ℕ) → 0 + n ≡ n
add-zero_left n = omega arith

suc-add_left : (k i : ℕ) → suc k + i ≡ suc (k + i)
suc-add_left k i = omega arith

pub digit-shr : (n k i : ℕ) → digit (n / 2 ^ k) i ≡ digit n (k + i)
digit-shr n zero i = simp add-zero_left (ap (λ (t : ℕ). digit t i) (omega arith))
digit-shr n (suc k) i = rw (div-pow-suc 2 n k, suc-add_left k i) (digit-shr (n / 2) k i)

pub digit-shl_low : (n k i : ℕ) → i < k → digit (n * 2 ^ k) i ≡ 0
digit-shl_low n zero i h = elim h [ ]
digit-shl_low n (suc k) zero h = omega (arith, ap (λ (t : ℕ). n * t) (pow-suc 2 k))
digit-shl_low n (suc k) (suc i) h =
    let e : n * 2 ^ suc k / 2 ≡ n * 2 ^ k = omega (arith, ap (λ (t : ℕ). n * t) (pow-suc 2 k)) in
    ap (λ (t : ℕ). digit t i) e ∙ digit-shl_low n k i (omega arith)

pub digit-shl_high : (n k i : ℕ) → digit (n * 2 ^ k) (k + i) ≡ digit n i
digit-shl_high n zero i = rw (add-zero_left i) (ap (λ (t : ℕ). digit t i) (omega arith))
digit-shl_high n (suc k) i =
    let e : n * 2 ^ suc k / 2 ≡ n * 2 ^ k = omega (arith, ap (λ (t : ℕ). n * t) (pow-suc 2 k)) in
    rw (suc-add_left k i) (ap (λ (t : ℕ). digit t (k + i)) e ∙ digit-shl_high n k i)

pub digit-mod : (n w i : ℕ) → i < w → digit (n % 2 ^ w) i ≡ digit n i
digit-mod n zero i h = elim h [ ]
digit-mod n (suc w) zero h = omega (arith, mod-pow-suc 2 n w)
digit-mod n (suc w) (suc i) h =
    let e : n % 2 ^ suc w / 2 ≡ n / 2 % 2 ^ w = omega (arith, mod-pow-suc 2 n w) in
    ap (λ (t : ℕ). digit t i) e ∙ digit-mod (n / 2) w i (omega arith)

pub digit-ge : (n w i : ℕ) → n < 2 ^ w → w ≤ i → digit n i ≡ 0
digit-ge n zero i h p = ap (λ (t : ℕ). digit t i) (omega arith) ∙ digit-zero i
digit-ge n (suc w) zero h p = elim p [ ]
digit-ge n (suc w) (suc i) h p = digit-ge (n / 2) w i (omega (arith, pow-suc 2 w)) (omega arith)

pub digit-complement : (n w i : ℕ) → n < 2 ^ w → i < w → digit (2 ^ w - 1 - n) i + digit n i ≡ 1
digit-complement n zero i h p = elim p [ ]
digit-complement n (suc w) zero h p = omega (arith, pow-suc 2 w)
digit-complement n (suc w) (suc i) h p =
    let e : (2 ^ suc w - 1 - n) / 2 ≡ 2 ^ w - 1 - n / 2 = omega (arith, pow-suc 2 w) in
    ap (λ (t : ℕ). digit t i + digit (n / 2) i) e
    ∙ digit-complement (n / 2) w i (omega (arith, pow-suc 2 w)) (omega arith)

-- Two words with the same digits are equal.
pub digit_ext :
    (w a b : ℕ) → a < 2 ^ w → b < 2 ^ w → ((i : ℕ) → i < w → digit a i ≡ digit b i) → a ≡ b
digit_ext zero a b p q h = omega arith
digit_ext (suc w) a b p q h =
    let halves : a / 2 ≡ b / 2 =
      digit_ext w (a / 2) (b / 2) (omega (arith, pow-suc 2 w)) (omega (arith, pow-suc 2 w))
        (λ i k. h (suc i) (omega arith)) in
    omega (arith, h 0 (omega arith))

bit_and-le : (a b : ℕ) → (n : ℕ) → a < 2 ^ n → bit_and a b ≤ a
bit_and-le a b zero h = let e : a ≡ 0 = omega arith in rw e (omega (arith, bit_and-zero_left b))
bit_and-le a b (suc n) h = omega (
  arith,
  pow-suc 2 n,
  bit_and_step a b,
  bit_and-le (a / 2) (b / 2) n (omega (arith, pow-suc 2 n)),
)

pub bit_and-lt : (w a b : ℕ) → a < 2 ^ w → bit_and a b < 2 ^ w
bit_and-lt w a b h = omega (arith, bit_and-le a b w h)

pub bit_or-lt : (w a b : ℕ) → a < 2 ^ w → b < 2 ^ w → bit_or a b < 2 ^ w
bit_or-lt zero a b h k =
    let e : a ≡ 0 = omega arith in let e' : b ≡ 0 = omega arith in rw (e, e') (omega arith)
bit_or-lt (suc w) a b h k = omega (
  arith,
  pow-suc 2 w,
  bit_or_step a b,
  bit_or-lt w (a / 2) (b / 2) (omega (arith, pow-suc 2 w)) (omega (arith, pow-suc 2 w)),
)

-- The mask of w ones.
pub digit-mask : (w i : ℕ) → i < w → digit (2 ^ w - 1) i ≡ 1
digit-mask w i h =
    let e : 2 ^ w - 1 - 0 ≡ 2 ^ w - 1 = omega arith in
    omega (
      arith,
      ap (λ (t : ℕ). digit t i) e,
      digit-complement 0 w i (one-le-pow w 2 (omega arith)) h,
      digit-zero i,
    )

pub bit_and-zero_right : (a : ℕ) → bit_and a 0 ≡ 0
bit_and-zero_right a =
    digit_ext a _ 0 (bit_and-lt a a 0 (lt-pow a)) (one-le-pow a 2 (omega arith))
      (λ i p. digit-bit_and a 0 i ∙ omega (arith, digit-zero i))

-- `x & ((1 << k) - 1)` is the remainder by 2 ^ k.
pub bit_and-mask : (k a : ℕ) → bit_and a (2 ^ k - 1) ≡ a % 2 ^ k
bit_and-mask zero a = omega (arith, bit_and-zero_right a)
bit_and-mask (suc k) a =
    let e : (2 ^ suc k - 1) / 2 ≡ 2 ^ k - 1 = omega (arith, pow-suc 2 k, one-le-pow k 2) in
    omega (
      arith,
      bit_and_step a (2 ^ suc k - 1),
      ap (λ (t : ℕ). bit_and (a / 2) t) e,
      mod-pow-suc 2 a k,
      pow-suc 2 k,
      one-le-pow k 2 (omega arith),
      bit_and-mask k (a / 2),
    )
