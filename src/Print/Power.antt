-- ===== src/Print/Power.antt =====
-- pow, the power on 64 bits.
use native.Mathlib.Nat.{pow-suc, pow-zero, pow-le-pow_right}
use osfort.Base.{ℕ, zero, suc, ◌+◌, ◌*◌, ◌/◌, ◌%◌, ◌^◌, ◌≤◌, ◌<◌, ◌≡◌, sym, ap, ◌∙◌, u64, arith}
use osfort.Print.{pow_loop, pow}

mul-mod64 : (x a : ℕ) → u64 (x % 2 ^ 64 * a) ≡ u64 (x * a)
mul-mod64 x a =
    let parts : x ≡ 2 ^ 64 * (x / 2 ^ 64) + x % 2 ^ 64 = omega arith in
    omega (arith, ap (λ t. t * a) parts)

pow_loop-eq : (n a b temp : ℕ) → temp ≡ a ^ b % 2 ^ 64 → pow_loop n a temp ≡ a ^ (b + n) % 2 ^ 64
unfolding pow_loop
pow_loop-eq zero a b temp h =
    let e : b + 0 ≡ b = omega arith in h ∙ ap (λ t. a ^ t % 2 ^ 64) (sym e)
pow_loop-eq (suc n) a b temp h =
    let e : suc b + n ≡ b + suc n = omega arith in
    pow_loop-eq n a (suc b) _
      (ap (λ t. u64 (t * a)) h ∙ mul-mod64 (a ^ b) a ∙ ap u64 (sym (pow-suc a b)))
    ∙ ap (λ t. a ^ t % 2 ^ 64) e

-- For a of 64 bits, pow(a, b) is the power modulo 2 ^ 64.
pub pow_lem : (a b : ℕ) → a < 2 ^ 64 → pow a b ≡ a ^ b % 2 ^ 64
unfolding pow
pow_lem a zero h = omega (arith, pow-zero a)
pow_lem a (suc n) h =
    let e : 1 + n ≡ suc n = omega arith in
    let first : a ^ 1 ≡ a = omega (arith, pow-suc a 0, pow-zero a, ap (λ t. t * a) (pow-zero a)) in
    pow_loop-eq n a 1 a (omega (arith, first)) ∙ ap (λ t. a ^ t % 2 ^ 64) e

-- The powers of ten that itoa uses are below 2 ^ 64.
pub pow_ten : (e : ℕ) → e ≤ 19 → pow 10 e ≡ 10 ^ e
pow_ten e h = pow_lem 10 e (omega arith) ∙ omega (arith, pow-le-pow_right {n = 10} (omega arith) h)
