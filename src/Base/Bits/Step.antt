-- ===== src/Base/Bits/Step.antt =====
-- `&` and `|` one binary digit at a time. Their definition runs on fuel, of which more than the first
-- operand changes nothing.
use Prim.Native.Nat.{
  ℕ, zero, suc, ◌+◌, ◌-◌, ◌*◌, ◌/◌, ◌%◌, ◌≤◌, bit_and, bit_or, bit_and-bitwise, bit_or-bitwise,
  bitwise, digits, max, min,
}
use mathlib.Core.Path.{◌≡◌, refl, sym, ap, ◌∙◌}
use native.Mathlib.Omega.{arith}

-- `last` is what is left of the second operand where the first is 0, `join` what two digits give.
module _ (last : ℕ → ℕ) (join : ℕ → ℕ → ℕ) where
  one_more : (fuel x y : ℕ) → x ≤ fuel → digits last join (suc fuel) x y ≡ digits last join fuel x y
  one_more zero zero y h = refl
  one_more (suc fuel) zero y h = refl
  one_more zero (suc x) y h = absurd (omega arith)
  one_more (suc fuel) (suc x) y h =
      ap (λ (t : ℕ). t * 2 + join (suc x % 2) (y % 2))
        (one_more fuel (suc x / 2) (y / 2) (omega arith))

  spare :
      (extra fuel x y : ℕ)
      → x ≤ fuel
      → digits last join (extra + fuel) x y ≡ digits last join fuel x y
  spare zero fuel x y h =
      let e : 0 + fuel ≡ fuel = omega arith in ap (λ (n : ℕ). digits last join n x y) e
  spare (suc extra) fuel x y h =
      let e : suc extra + fuel ≡ suc (extra + fuel) = omega arith in
      ap (λ (n : ℕ). digits last join n x y) e
      ∙ one_more (extra + fuel) x y (omega arith)
      ∙ spare extra fuel x y h

  bitwise_step :
      (x y : ℕ)
      → bitwise last join (suc x) y
        ≡ bitwise last join (suc x / 2) (y / 2) * 2 + join (suc x % 2) (y % 2)
  bitwise_step x y =
      let half = suc x / 2 in
      let e : x - half + half ≡ x = omega arith in
      ap (λ (t : ℕ). t * 2 + join (suc x % 2) (y % 2))
        (ap (λ (n : ℕ). digits last join n half (y / 2)) (sym e)
          ∙ spare (x - half) half half (y / 2) (omega arith))

pub bit_and_step : (x y : ℕ) → bit_and x y ≡ bit_and (x / 2) (y / 2) * 2 + min (x % 2) (y % 2)
bit_and_step zero y = omega (arith, bit_and-bitwise 0 y, bit_and-bitwise (0 / 2) (y / 2))
bit_and_step (suc x) y =
    bit_and-bitwise (suc x) y
    ∙ bitwise_step (λ _. 0) min x y
    ∙ ap (λ (t : ℕ). t * 2 + min (suc x % 2) (y % 2)) (sym (bit_and-bitwise (suc x / 2) (y / 2)))

pub bit_or_step : (x y : ℕ) → bit_or x y ≡ bit_or (x / 2) (y / 2) * 2 + max (x % 2) (y % 2)
bit_or_step zero y = omega (arith, bit_or-bitwise 0 y, bit_or-bitwise (0 / 2) (y / 2))
bit_or_step (suc x) y =
    bit_or-bitwise (suc x) y
    ∙ bitwise_step (λ n. n) max x y
    ∙ ap (λ (t : ℕ). t * 2 + max (suc x % 2) (y % 2)) (sym (bit_or-bitwise (suc x / 2) (y / 2)))
