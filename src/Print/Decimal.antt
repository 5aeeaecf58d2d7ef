-- ===== src/Print/Decimal.antt =====
-- itoa: the decimal text of a number.
use native.Mathlib.Nat.{
  pow-suc, div-div-eq-div-mul, div-add-mod, mod-lt, div-eq_of_lt-le, div-eq_of_lt, pow-le-pow_right,
  one-le-pow,
}
use osfort.Base.Arith.{div-pow-last, eq-or-later}
use osfort.Base.{
  ℕ, zero, suc, ◌+◌, ◌-◌, ◌*◌, ◌/◌, ◌%◌, ◌^◌, ◌≤◌, ◌<◌, ◌≡◌, ◌≢◌, ◌⊎◌, inl, inr, refl, sym, ap, ◌∙◌,
  List, get_or, set, replicate, length, length-set, get_or-set_self, get_or-set_ne, leb, lt→ltb,
  ne→==, false, get_or-replicate, ltb-false, some, u8, u64, arith,
}
use osfort.Print.Power.{pow_ten}
use osfort.Print.{pow, scan, itoa_from, itoa_after, itoa}

lt-or-ge : (a b : ℕ) → (a < b) ⊎ (b ≤ a)
lt-or-ge a b = omega arith

scan-step : (f num i k : ℕ) → num < i → scan (suc f) num i k ≡ scan f num (i / 10) (k + 1)
unfolding scan
scan-step f num i k h = rw (lt→ltb num i h) refl

pub scan-stop : (f num i k : ℕ) → i ≤ num → scan (suc f) num i k ≡ some k
unfolding scan
scan-stop f num i k h = rw (ltb-false num i h) refl

-- The loop that counts the leading zeros stops at the power of ten that num reaches.
scan-found :
    (e f num k : ℕ)
    → e ≤ f
    → 0 < num
    → num < 10 ^ suc e
    → (d : ℕ) × ((scan (suc f) num (10 ^ e) k ≡ some (k + (e - d)))
        × (d ≤ e)
        × (10 ^ d ≤ num)
        × (num < 10 ^ suc d))
scan-found zero f num k fuel pos small =
    (0, (scan-stop f num 1 k pos ∙ ap some (omega arith), omega arith, pos, small))
scan-found (suc e) zero num k fuel pos small = absurd (omega arith)
scan-found (suc e) (suc f) num k fuel pos small =
    let tenth : 10 ^ suc e / 10 ≡ 10 ^ e = omega (arith, pow-suc 10 e) in
    elim (lt-or-ge num (10 ^ suc e)) [
      | inl below ↦
          let (d, (found, low, lo, hi)) = scan-found e f num (k + 1) (omega arith) pos below in
          (
            d,
            (
              scan-step (suc f) num (10 ^ suc e) k below
                  ∙ ap (λ i. scan (suc f) num i (k + 1)) tenth
                  ∙ found
                  ∙ ap some (omega (arith, low)),
              omega (arith, low),
              lo,
              hi,
            ),
          )
      | inr reached ↦ (
        suc e,
        (
          scan-stop (suc f) num (10 ^ suc e) k reached ∙ ap some (omega arith),
          omega arith,
          reached,
          small,
        ),
      )
    ]

-- The digits: place i has the digit of weight 10 ^ (d - i), for the d + 1 digits of num.
pub itoa_from-keeps :
    (n i k num j : ℕ) (t : List ℕ)
    → (j < i) ⊎ (n + i ≤ j)
    → get_or (itoa_from n i k num t) j 0 ≡ get_or t j 0
unfolding itoa_from
itoa_from-keeps zero i k num j t h = refl
itoa_from-keeps (suc n) i k num j t h =
    itoa_from-keeps n (i + 1) k num j _ (omega arith) ∙ get_or-set_ne t i j _ 0 (omega arith)

mod-mul-div : (p n : ℕ) → 0 < p → n % (p * 10) / p ≡ n / p % 10
mod-mul-div p n pos =
    let a = n / p / 10 in
    let r = n / p % 10 in
    let quotient : n / p ≡ 10 * a + r = omega arith in
    let whole : n ≡ p * 10 * a + n % (p * 10) =
      sym (
        ap (λ t. p * 10 * t + n % (p * 10)) (div-div-eq-div-mul n p 10) ∙ div-add-mod n (p * 10)) in
    let outer : n ≡ p * (10 * a + r) + n % p =
      sym (ap (λ t. p * t + n % p) (sym quotient) ∙ div-add-mod n p) in
    let low : n % p < p = mod-lt n pos in
    div-eq_of_lt-le {k = r} p {m = n % (p * 10)} (omega (arith, whole, outer, low))
      (omega (arith, whole, outer, low))

-- One character: `num % (j * 10) / j + 48` where j is 10 ^ w.
digit_at :
    (num w : ℕ) → w ≤ 18 → u8 (num % u64 (10 ^ w * 10) / 10 ^ w + 48) ≡ num / 10 ^ w % 10 + 48
digit_at num w h =
    let small : 10 ^ w ≤ 10 ^ 18 = pow-le-pow_right {n = 10} (omega arith) h in
    let fits : u64 (10 ^ w * 10) ≡ 10 ^ w * 10 = omega (arith, small) in
    rw fits (omega (arith, mod-mul-div (10 ^ w) num (one-le-pow w 10 (omega arith))))

pub itoa_from-digit :
    (n i k num j d : ℕ) (t : List ℕ)
    → k + d ≡ 19
    → d ≤ 18 + i
    → n + i ≤ suc d
    → d < length t
    → i ≤ j
    → j < n + i
    → get_or (itoa_from n i k num t) j 0 ≡ num / 10 ^ (d - j) % 10 + 48
unfolding itoa_from
itoa_from-digit zero i k num j d t e small g room lo hi = absurd (omega arith)
itoa_from-digit (suc n) i k num j d t e small g room lo hi =
    let c = u8 (num % u64 (pow 10 (19 - i - k) * 10) / pow 10 (19 - i - k) + 48) in
    elim (eq-or-later i j lo) [
      | inl here ↦
          ap (λ x. get_or (itoa_from n (i + 1) k num (set t i c)) x 0) (sym here)
          ∙ itoa_from-keeps n (i + 1) k num i (set t i c) (inl (omega arith))
          ∙ get_or-set_self t i c 0 (omega arith)
          ∙ ap (λ x. u8 (num % u64 (x * 10) / x + 48))
              (pow_ten (19 - i - k) (omega arith) ∙ ap (λ x. 10 ^ x) (omega arith))
          ∙ digit_at num (d - j) (omega arith)
      | inr later ↦
          itoa_from-digit n (i + 1) k num j d (set t i c) e (omega arith) (omega arith)
            (omega (arith, length-set t i c)) (omega arith) (omega arith)
    ]

-- The value of the first n characters of a text in base 10.
unfoldable pub value : List ℕ → ℕ → ℕ
value t zero = 0
value t (suc n) = value t n * 10 + (get_or t n 0 - 48)

pub value-digits :
    (t : List ℕ) (num d n : ℕ)
    → num < 10 ^ suc d
    → ((j : ℕ) → j ≤ d → get_or t j 0 ≡ num / 10 ^ (d - j) % 10 + 48)
    → n ≤ suc d
    → value t n ≡ num / 10 ^ (suc d - n)
unfolding value
value-digits t num d zero small digits h =
    let whole : suc d - 0 ≡ suc d = omega arith in
    omega (arith, div-eq_of_lt small, ap (λ k. num / 10 ^ k) whole)
value-digits t num d (suc n) small digits h =
    let after : suc d - suc n ≡ d - n = omega arith in
    let before : suc d - n ≡ suc (d - n) = omega arith in
    omega (
      arith,
      ap (λ k. num / 10 ^ k) after,
      ap (λ k. num / 10 ^ k) before,
      value-digits t num d n small digits (omega arith),
      digits n (omega arith),
      div-pow-last 10 num (d - n),
    )

-- The text is the decimal text of num: 1 to 20 digits, no 0 in front of others, then a NUL.
unfoldable pub IsDecimal : List ℕ → ℕ → Type 0
IsDecimal t num =
    (n : ℕ) × ((0 < n)
      × (n ≤ 20)
      × (get_or t n 0 ≡ 0)
      × ((j : ℕ) → j < n → (48 ≤ get_or t j 0) × (get_or t j 0 ≤ 57))
      × ((get_or t 0 0 ≢ 48) ⊎ (n ≡ 1))
      × (value t n ≡ num))

-- The two ways out, for a number below 10 ^ 19.
itoa_small :
    (num k : ℕ)
    → num < 10 ^ 19
    → scan 20 num (10 ^ 18) 1 ≡ some k
    → itoa num ≡ itoa_after num (replicate 21 0) (some k)
unfolding itoa
itoa_small num k h e =
    let unreached : leb (pow 10 19) num ≡ false = ground (arith, pow_ten 19 (omega arith)) in
    rw unreached (
      ap (itoa_after num (replicate 21 0))
        (ap (λ i. scan 20 num i 1) (pow_ten 18 (omega arith)) ∙ e))

itoa_after_digits :
    (num k : ℕ) (t : List ℕ)
    → k < 20
    → itoa_after num t (some k) ≡ some (itoa_from (20 - k) 0 k num t)
unfolding itoa_after
itoa_after_digits num k t h = rw (ne→== k 20 (omega arith)) refl

leading : (num d : ℕ) → 10 ^ d ≤ num → num < 10 ^ suc d → num / 10 ^ d % 10 ≢ 0
leading num d lo hi e =
    let quotient : num / 10 ^ d ≡ 0 = omega (arith, e, div-pow-last 10 num d, div-eq_of_lt hi) in
    let below : num % 10 ^ d < 10 ^ d = mod-lt num (one-le-pow d 10 (omega arith)) in
    omega (arith, below, div-add-mod num (10 ^ d), ap (λ x. 10 ^ d * x) quotient)

itoa_from-IsDecimal :
    (num k d : ℕ)
    → k + d ≡ 19
    → d ≤ 18
    → 10 ^ d ≤ num
    → num < 10 ^ suc d
    → IsDecimal (itoa_from (20 - k) 0 k num (replicate 21 0)) num
unfolding IsDecimal
itoa_from-IsDecimal num k d e small lo hi =
    let blank : List ℕ = replicate 21 0 in
    let t = itoa_from (20 - k) 0 k num blank in
    let digits : (j : ℕ) → j ≤ d → get_or t j 0 ≡ num / 10 ^ (d - j) % 10 + 48 = λ j h.
      itoa_from-digit (20 - k) 0 k num j d blank e (omega arith) (omega arith) (omega arith)
        (omega arith) (omega arith) in
    let whole : d - 0 ≡ d = omega arith in
    let none_left : suc d - suc d ≡ 0 = omega arith in
    (
      suc d,
      (
        omega arith,
        omega arith,
        itoa_from-keeps (20 - k) 0 k num (suc d) blank (inr (omega arith))
            ∙ get_or-replicate 21 (suc d) 0,
        λ j h. (omega (arith, digits j (omega arith)), omega (arith, digits j (omega arith))),
        inl (λ zero_first.
            leading num d lo hi
              (omega (arith, digits 0 (omega arith), zero_first, ap (λ x. num / 10 ^ x) whole))),
        value-digits t num d (suc d) hi digits (omega arith)
            ∙ ap (λ x. num / 10 ^ x) none_left
            ∙ omega arith,
      ),
    )

zero_text : IsDecimal (set (replicate 21 0) 0 48) 0
unfolding IsDecimal value
zero_text =
    let zero_digits : (j : ℕ)
        → j < 1
        → (48 ≤ get_or (set (replicate 21 0) 0 48) j 0)
          × (get_or (set (replicate 21 0) 0 48) j 0 ≤ 57) =
      λ j h. let e : j ≡ 0 = omega arith in rw e (omega arith, omega arith) in
    (1, (omega arith, omega arith, refl, zero_digits, inr refl, refl))

-- Below 10 ^ 19 itoa ends, and its text is the decimal text of the number.
pub itoa-IsDecimal :
    (num : ℕ) → num < 10 ^ 19 → (t : List ℕ) × ((itoa num ≡ some t) × IsDecimal t num)
unfolding scan itoa_after
itoa-IsDecimal zero h = (_, (itoa_small 0 20 h refl, zero_text))
itoa-IsDecimal (suc num) h =
    let (d, (found, small, lo, hi)) = scan-found 18 19 (suc num) 1 (omega arith) (omega arith) h in
    let k = 1 + (18 - d) in
    (
      itoa_from (20 - k) 0 k (suc num) (replicate 21 0),
      (
        itoa_small (suc num) k h found ∙ itoa_after_digits (suc num) k _ (omega arith),
        itoa_from-IsDecimal (suc num) k d (omega arith) small lo hi,
      ),
    )
