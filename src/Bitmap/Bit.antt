-- ===== src/Bitmap/Bit.antt =====
-- One byte: testing, setting and clearing bit k, and what that does to the eight bits.
use osfort.Base.{
  ℕ, zero, suc, ◌+◌, ◌≤◌, ◌<◌, ◌≡◌, refl, sym, ap, ◌∙◌, Bool-cases, inl, inr, Bool, true, ◌&&◌,
  if◌then◌else◌, ◌==◌, ==_iff, truthy, arith, bit_and, bit_or, u8, ◌<<<◌, complement,
}
use osfort.Base.Bits.{digit}

&&-true : (a b : Bool) → (a && b) ≡ true → (a ≡ true) × (b ≡ true)
&&-true a b h = ground arith

-- The test holds at `start` and the numbers after it, as many as there are rounds.
holds_from : (ℕ → Bool) → ℕ → ℕ → Bool
holds_from test start zero = true
holds_from test start (suc rounds) = test start && holds_from test (start + 1) rounds

holds_at :
    (rounds start v : ℕ) (test : ℕ → Bool)
    → start ≤ v
    → v < start + rounds
    → holds_from test start rounds ≡ true
    → test v ≡ true
unfolding holds_from
holds_at zero start v test lo hi all = absurd (omega arith)
holds_at (suc rounds) start v test lo hi all =
    let (now, later) = &&-true (test start) (holds_from test (start + 1) rounds) all in
    elim (Bool-cases (start == v)) [
      | inl e ↦ ap test (sym ((==_iff start v).0 e)) ∙ now
      | inr n ↦ holds_at rounds (start + 1) v test (ground arith) (omega arith) later
    ]

abbrev check_bit : ℕ → ℕ → Bool
check_bit k b = digit b k == (if truthy (bit_and b (u8 (1 <<< u8 k))) then 1 else 0)

abbrev check_set : ℕ → ℕ → ℕ → Bool
check_set k j b =
    (digit (u8 (bit_or b (u8 (1 <<< u8 k)))) j == (if k == j then 1 else digit b j))
    && (digit (u8 (bit_and b (complement 8 (u8 (1 <<< u8 k))))) j
        == (if k == j then 0 else digit b j))

bit_table : holds_from (λ k. holds_from (check_bit k) 0 256) 0 8 ≡ true
unfolding holds_from
bit_table = refl

set_table : holds_from (λ k. holds_from (λ j. holds_from (check_set k j) 0 256) 0 8) 0 8 ≡ true
unfolding holds_from
set_table = refl

module _ (b k : ℕ) (byte : b < 256) (small : k < 8) where
  pub bit_and_bit : (if truthy (bit_and b (u8 (1 <<< u8 k))) then 1 else 0) ≡ digit b k
  bit_and_bit =
      let row =
        holds_at 8 0 k (λ k. holds_from (check_bit k) 0 256) (omega arith) (omega arith)
          bit_table in
      let cell = holds_at 256 0 b (check_bit k) (omega arith) (omega arith) row in
      ground (arith, cell)

  pub set_bits :
      (j : ℕ)
      → j < 8
      → (digit (u8 (bit_or b (u8 (1 <<< u8 k)))) j ≡ (if k == j then 1 else digit b j))
        × (digit (u8 (bit_and b (complement 8 (u8 (1 <<< u8 k))))) j
            ≡ (if k == j then 0 else digit b j))
  set_bits j small' =
      let plane =
        holds_at 8 0 k (λ k. holds_from (λ j. holds_from (check_set k j) 0 256) 0 8) (omega arith)
          (omega arith) set_table in
      let row =
        holds_at 8 0 j (λ j. holds_from (check_set k j) 0 256) (omega arith) (omega arith) plane in
      let cell = holds_at 256 0 b (check_set k j) (omega arith) (omega arith) row in
      let (one, two) = &&-true _ _ cell in ((==_iff _ _).0 one, (==_iff _ _).0 two)
