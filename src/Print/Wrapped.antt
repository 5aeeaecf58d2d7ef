-- ===== src/Print/Wrapped.antt =====
-- itoa from 10 ^ 19 on, where `j * 10` does not fit 64 bits.
use native.Mathlib.Nat.{add-mul-div_left, one-le-pow}
use osfort.Base.{
  ℕ, suc, ◌+◌, ◌-◌, ◌*◌, ◌/◌, ◌%◌, ◌^◌, ◌≤◌, ◌<◌, ◌≡◌, refl, ap, ◌∙◌, inl, inr, List, get_or, set,
  replicate, length, zero, length-set, get_or-set_self, leb, true, some, u8, u64, arith,
}
use osfort.Base.Field.{pow-add}
use osfort.Print.Power.{pow_ten}
use osfort.Print.{pow, itoa_from, itoa_after, itoa, scan}
use osfort.Print.Decimal.{itoa_from-digit, itoa_from-keeps, value, value-digits, scan-stop}

-- The digits below the twentieth do not see 10 ^ 19.
digit-less :
    (num w : ℕ) → 10 ^ 19 ≤ num → w ≤ 18 → num / 10 ^ w % 10 ≡ (num - 10 ^ 19) / 10 ^ w % 10
digit-less num w big h =
    let m = 10 ^ (18 - w) in
    let split : 10 ^ 18 ≡ 10 ^ w * m =
      ap (λ (t : ℕ). 10 ^ t) {x = 18} (omega arith) ∙ pow-add 10 w (18 - w) in
    let whole : num ≡ num - 10 ^ 19 + 10 ^ w * (m * 10) = omega (arith, split) in
    omega (
      arith,
      ap (λ t. t / 10 ^ w) whole,
      add-mul-div_left (num - 10 ^ 19) (m * 10) {y = 10 ^ w} (one-le-pow w 10 (omega arith)),
    )

-- The buffer after the first round, whose character is the digit 0.
first_round :
    (num : ℕ) (t : List ℕ)
    → num < 2 ^ 64
    → itoa_from 20 0 0 num t ≡ itoa_from 19 1 0 num (set t 0 48)
unfolding itoa_from
first_round num t h =
    ap (λ j. itoa_from 19 1 0 num (set t 0 (u8 (num % u64 (j * 10) / j + 48))))
      (pow_ten 19 (omega arith))
    ∙ ap (λ c. itoa_from 19 1 0 num (set t 0 c)) (omega arith)

itoa_large :
    (num c : ℕ)
    → 10 ^ 19 ≤ num
    → u8 (num / pow 10 19 + 48) ≡ c
    → itoa num ≡ some (itoa_from 20 0 0 num (set (replicate 21 0) 0 c))
unfolding itoa itoa_after
itoa_large num c big h =
    let reached : leb (pow 10 19) num ≡ true = ground (arith, pow_ten 19 (omega arith), big) in
    let stops : scan 20 num (pow 10 18) 0 ≡ some 0 =
      ap (λ i. scan 20 num i 0) (pow_ten 18 (omega arith))
      ∙ scan-stop 19 num (10 ^ 18) 0 (omega arith) in
    rw (reached, stops, h) refl

first_digit :
    (num : ℕ) (t : List ℕ) → 0 < length t → get_or (itoa_from 19 1 0 num (set t 0 48)) 0 0 ≡ 48
first_digit num t room =
    itoa_from-keeps 19 1 0 num 0 (set t 0 48) (inl (omega arith)) ∙ get_or-set_self t 0 48 0 room

later_digits :
    (num : ℕ) (t : List ℕ)
    → 10 ^ 19 ≤ num
    → num < 2 ^ 64
    → 20 ≤ length t
    → (j : ℕ) → j ≤ 19
    → get_or (itoa_from 19 1 0 num (set t 0 48)) j 0 ≡ (num - 10 ^ 19) / 10 ^ (19 - j) % 10 + 48
later_digits num t big h room zero hj = omega (arith, first_digit num t (omega arith))
later_digits num t big h room (suc j) hj =
    itoa_from-digit 19 1 0 num (suc j) 19 (set t 0 48) refl (omega arith) (omega arith)
      (omega (arith, length-set t 0 48)) (omega arith) (omega arith)
    ∙ ap (λ x. x + 48) (digit-less num (19 - suc j) big (omega arith))

-- From 10 ^ 19 on, for a number of 64 bits, itoa ends with a text of 20 digits and a NUL whose first
-- digit is 0 and whose value is the number less 10 ^ 19: the first digit is lost.
pub itoa-value :
    (num : ℕ)
    → 10 ^ 19 ≤ num
    → num < 2 ^ 64
    → (t : List ℕ) × ((itoa num ≡ some t)
        × (get_or t 0 0 ≡ 48)
        × (value t 20 ≡ num - 10 ^ 19)
        × (get_or t 20 0 ≡ 0)
        × ((j : ℕ) → j < 20 → (b'0' ≤ get_or t j 0) × (get_or t j 0 ≤ b'9')))
itoa-value num big h =
    let c = u8 (num / pow 10 19 + 48) in
    let t : List ℕ = set (replicate 21 0) 0 c in
    (
      itoa_from 19 1 0 num (set t 0 48),
      (
        itoa_large num c big refl ∙ ap some (first_round num t h),
        first_digit num t (omega arith),
        value-digits (itoa_from 19 1 0 num (set t 0 48)) (num - 10 ^ 19) 19 20 (omega arith)
              (later_digits num t big h (omega arith)) (omega arith)
            ∙ omega arith,
        itoa_from-keeps 19 1 0 num 20 (set t 0 48) (inr (omega arith)),
        λ j low.
            let digit = later_digits num t big h (omega arith) j (omega (arith, low)) in
            (omega (arith, digit), omega (arith, digit)),
      ),
    )
