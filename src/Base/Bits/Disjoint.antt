-- ===== src/Base/Bits/Disjoint.antt =====
-- `|` of words with no digit in common.
use osfort.Base.Bits.Step.{bit_or_step}
use Prim.Native.Nat.{ℕ, zero, suc, ◌+◌, ◌*◌, ◌/◌, ◌^◌, ◌<◌, bit_or, bit_or-bitwise}
use mathlib.Core.Path.{◌≡◌, ap, ◌∙◌}
use native.Mathlib.Nat.{pow-suc}
use native.Mathlib.Omega.{arith}

bit_or-zero_left : (b : ℕ) → bit_or 0 b ≡ b
bit_or-zero_left b = bit_or-bitwise 0 b

-- A word of k bits below another.
pub bit_or-shl : (k a b : ℕ) → a < 2 ^ k → bit_or a (b * 2 ^ k) ≡ a + b * 2 ^ k
bit_or-shl zero a b h =
    let e : a ≡ 0 = omega arith in
    let e' : b * 2 ^ 0 ≡ b = omega arith in rw (e, e') (bit_or-zero_left b ∙ omega arith)
bit_or-shl (suc k) a b h =
    let e : b * 2 ^ suc k ≡ b * 2 ^ k * 2 = omega (arith, ap (λ (t : ℕ). b * t) (pow-suc 2 k)) in
    let half : b * 2 ^ k * 2 / 2 ≡ b * 2 ^ k = omega arith in
    let rest : bit_or (a / 2) (b * 2 ^ k * 2 / 2) ≡ a / 2 + b * 2 ^ k =
      ap (λ (t : ℕ). bit_or (a / 2) t) half ∙ bit_or-shl k (a / 2) b (omega (arith, pow-suc 2 k)) in
    rw e (omega (arith, bit_or_step a (b * 2 ^ k * 2), rest))
