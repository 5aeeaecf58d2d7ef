-- ===== src/Base/Field.antt =====
-- Bit fields of a word: the expressions `(x >> o) & mask` and `(x & ~(mask << o)) | (v << o)`.
use Prim.Native.Nat.{ℕ, zero, suc, ◌+◌, ◌-◌, ◌*◌, ◌/◌, ◌%◌, ◌^◌, ◌≤◌, ◌<◌, bit_and, bit_or}
use mathlib.Core.Path.{◌≡◌, refl, sym, ap, ◌∙◌}
use mathlib.Core.Logic.{◌⊎◌, inl, inr}
use mathlib.Core.Bool.{◌&&◌}
use native.Mathlib.Nat.{pow-suc, pow-zero, add-suc, one-le-pow, div-eq_of_lt-le, mul_assoc, mod-lt}
use native.Mathlib.Omega.{arith}
use osfort.Base.Bits.{
  digit, digit-lt, digit-bit_and, digit-bit_or, digit-shr, digit-shl_low, digit-shl_high, digit-mod,
  digit-ge, digit-complement, digit-mask, digit_ext, bit_and-lt, bit_or-lt, bit_and-mask,
}
use osfort.Base.Tests.{ltb, leb, if◌then◌else◌, Bool-cases}
use osfort.Base.Words.{◌<<<◌, ◌>>>◌, complement}

pub pow-add : (b m n : ℕ) → b ^ (m + n) ≡ b ^ m * b ^ n
pow-add b m zero =
    let e : m + zero ≡ m = omega arith in
    rw e (omega (arith, ap (λ (t : ℕ). b ^ m * t) (pow-zero b)))
pow-add b m (suc n) =
    ap (λ (t : ℕ). b ^ t) (add-suc m n)
    ∙ pow-suc b (m + n)
    ∙ ap (λ (t : ℕ). t * b) (pow-add b m n)
    ∙ mul_assoc (b ^ m) (b ^ n) b
    ∙ ap (λ (t : ℕ). b ^ m * t) (sym (pow-suc b n))

-- A word of w ones shifted right until k are left.
pub ones-shr : (w k : ℕ) → k ≤ w → (2 ^ w - 1) >>> (w - k) ≡ 2 ^ k - 1
ones-shr w k h =
    let d = w - k in
    let q = 2 ^ k - 1 in
    let whole : 2 ^ w ≡ 2 ^ k * 2 ^ d = ap (λ (t : ℕ). 2 ^ t) (omega arith) ∙ pow-add 2 k d in
    let top : 2 ^ k ≡ q + 1 = omega (arith, one-le-pow k 2) in
    let parts : 2 ^ k * 2 ^ d ≡ q * 2 ^ d + 2 ^ d = ap (λ (t : ℕ). t * 2 ^ d) top ∙ omega arith in
    div-eq_of_lt-le {k = q} (2 ^ d) {m = 2 ^ w - 1} (omega (arith, whole, parts, one-le-pow d 2))
      (omega (arith, whole, parts, one-le-pow d 2))

-- The field of k bits at bit o, and the word with v put there, as the code computes them.
unfoldable pub field_get : ℕ → ℕ → ℕ → ℕ → ℕ
field_get w x o k = bit_and (x >>> o) ((2 ^ w - 1) >>> (w - k))

unfoldable pub field_set : ℕ → ℕ → ℕ → ℕ → ℕ → ℕ
field_set w x o v k =
    bit_or (bit_and x (complement w ((((2 ^ w - 1) >>> (w - k)) <<< o) % 2 ^ w)))
      ((v <<< o) % 2 ^ w)

module _ (w o k : ℕ) (fits : o + k ≤ w) where
  -- The digits of the mask, in place.
  mask : ℕ
  mask = ((((2 ^ w - 1) >>> (w - k)) <<< o) % 2 ^ w)

  mask-lt : mask < 2 ^ w
  unfolding mask
  mask-lt = mod-lt _ (one-le-pow w 2 (omega arith))

  -- Digit i of v << o, for v of k bits: one of v's digits inside the field, 0 outside.
  digit-shifted :
      (v i : ℕ)
      → v < 2 ^ k
      → i < w
      → digit ((v <<< o) % 2 ^ w) i ≡ (if leb o i && ltb i (o + k) then digit v (i - o) else 0)
  digit-shifted v i small h = digit-mod (v <<< o) w i h ∙ elim (Bool-cases (leb o i)) [
    | inr low ↦ rw low (digit-shl_low v o i (ground arith))
    | inl high ↦
        let e : o + (i - o) ≡ i = ground arith in
        ap (λ (t : ℕ). digit (v * 2 ^ o) t) (sym e)
        ∙ digit-shl_high v o (i - o)
        ∙ (rw high (elim (Bool-cases (ltb i (o + k))) [
          | inl inside ↦ rw inside refl
          | inr outside ↦ rw outside (digit-ge v k (i - o) small (ground arith))
        ]))
  ]

  digit-hole :
      (i : ℕ) → i < w → digit (complement w mask) i ≡ (if leb o i && ltb i (o + k) then 0 else 1)
  unfolding mask
  digit-hole i h =
      let low : 2 ^ k - 1 < 2 ^ k = omega (arith, one-le-pow k 2) in
      let m : digit mask i ≡ (if leb o i && ltb i (o + k) then digit (2 ^ k - 1) (i - o) else 0) =
        ap (λ (t : ℕ). digit ((t <<< o) % 2 ^ w) i) (ones-shr w k (omega arith))
        ∙ digit-shifted (2 ^ k - 1) i low h in
      ground (arith, m, digit-complement mask w i mask-lt h, digit-mask k (i - o))

  -- The digits of the new word: v's inside the field, the old ones elsewhere.
  pub digit-field_set :
      (x v i : ℕ)
      → v < 2 ^ k
      → i < w
      → digit (field_set w x o v k) i
        ≡ (if leb o i && ltb i (o + k) then digit v (i - o) else digit x i)
  unfolding field_set mask
  digit-field_set x v i small h =
      let a = digit-bit_and x (complement w mask) i in
      let b = digit-bit_or (bit_and x (complement w mask)) ((v <<< o) % 2 ^ w) i in
      ground
        (arith, a, b, digit-hole i h, digit-shifted v i small h, digit-lt x i, digit-lt v (i - o))

  pub field_set-lt : (x v : ℕ) → x < 2 ^ w → field_set w x o v k < 2 ^ w
  unfolding field_set
  field_set-lt x v h =
      bit_or-lt w _ _ (bit_and-lt w x _ h) (mod-lt (v <<< o) (one-le-pow w 2 (omega arith)))

  pub field_get-eq : (x : ℕ) → field_get w x o k ≡ x / 2 ^ o % 2 ^ k
  unfolding field_get
  field_get-eq x =
      ap (λ (t : ℕ). bit_and (x / 2 ^ o) t) (ones-shr w k (omega arith))
      ∙ bit_and-mask k (x / 2 ^ o)

  pub digit-field_get : (x i : ℕ) → i < k → digit (field_get w x o k) i ≡ digit x (o + i)
  digit-field_get x i h =
      ap (λ (t : ℕ). digit t i) (field_get-eq x) ∙ digit-mod (x / 2 ^ o) k i h ∙ digit-shr x o i

  pub field_get-lt : (x : ℕ) → field_get w x o k < 2 ^ k
  field_get-lt x = rw (field_get-eq x) (mod-lt (x / 2 ^ o) (one-le-pow k 2 (omega arith)))

module _ (w o k : ℕ) (fits : o + k ≤ w) (x v : ℕ) (small : v < 2 ^ k) where
  -- Reading the field back gives v.
  pub field_get-field_set_self : field_get w (field_set w x o v k) o k ≡ v
  field_get-field_set_self =
      digit_ext k _ v (field_get-lt w o k fits (field_set w x o v k)) small (λ i h.
        digit-field_get w o k fits (field_set w x o v k) i h
        ∙ digit-field_set w o k fits x v (o + i) small (omega arith)
        ∙ inside i h)
    where
      inside :
          (i : ℕ)
          → i < k
          → (if leb o (o + i) && ltb (o + i) (o + k) then digit v (o + i - o) else digit x (o + i))
            ≡ digit v i
      inside i h = let e : o + i - o ≡ i = omega arith in rw e (ground arith)

  -- Any field that shares no bit with it is as before.
  pub field_get-field_set_ne :
      (o' k' : ℕ)
      → o' + k' ≤ w
      → (o' + k' ≤ o) ⊎ (o + k ≤ o')
      → field_get w (field_set w x o v k) o' k' ≡ field_get w x o' k'
  field_get-field_set_ne o' k' fits' apart =
      digit_ext k' _ _ (field_get-lt w o' k' fits' (field_set w x o v k))
        (field_get-lt w o' k' fits' x)
        (λ i h.
          digit-field_get w o' k' fits' (field_set w x o v k) i h
          ∙ digit-field_set w o k fits x v (o' + i) small (omega arith)
          ∙ outside i h
          ∙ sym (digit-field_get w o' k' fits' x i h))
    where
      outside :
          (i : ℕ)
          → i < k'
          → (if leb o (o' + i) && ltb (o' + i) (o + k)
              then digit v (o' + i - o)
              else digit x (o' + i))
            ≡ digit x (o' + i)
      outside i h = ground arith
