-- ===== src/Base/Arith.antt =====
-- Quotients and remainders by a power, one factor at a time, and a split of an order.
use Prim.Native.Nat.{ℕ, suc, ◌+◌, ◌*◌, ◌/◌, ◌%◌, ◌^◌, ◌≤◌}
use mathlib.Core.Path.{◌≡◌, sym, ap, ◌∙◌}
use mathlib.Core.Logic.{◌⊎◌}
use native.Mathlib.Nat.{pow-suc, div-add-mod, div-div-eq-div-mul, mul_comm}
use native.Mathlib.Omega.{arith}

pub div-pow-suc : (b n k : ℕ) → n / b ^ suc k ≡ n / b / b ^ k
div-pow-suc b n k =
    ap (λ (t : ℕ). n / t) (pow-suc b k ∙ mul_comm (b ^ k) b) ∙ sym (div-div-eq-div-mul n b (b ^ k))

pub mod-pow-suc : (b n k : ℕ) → n % b ^ suc k ≡ n % b + b * (n / b % b ^ k)
mod-pow-suc b n k = omega (
  arith,
  div-add-mod n (b ^ suc k),
  div-add-mod n b,
  ap (λ (t : ℕ). b * t) (div-add-mod (n / b) (b ^ k)),
  ap (λ (t : ℕ). b ^ suc k * t) (div-pow-suc b n k),
  ap (λ (t : ℕ). t * (n / b / b ^ k)) (pow-suc b k),
)

pub div-pow-last : (b n k : ℕ) → n / b ^ suc k ≡ n / b ^ k / b
div-pow-last b n k = ap (λ (t : ℕ). n / t) (pow-suc b k) ∙ sym (div-div-eq-div-mul n (b ^ k) b)

pub eq-or-later : (i j : ℕ) → i ≤ j → (i ≡ j) ⊎ (i + 1 ≤ j)
eq-or-later i j h = omega arith
