-- ===== src/Paging/Table/Chain.antt =====
-- The tables that a page shares with the page before it.
use native.Mathlib.Nat.{div-div-eq-div-mul}
use osfort.Base.{
  ℕ, zero, suc, ◌+◌, ◌-◌, ◌/◌, ◌%◌, ◌^◌, ◌≤◌, ◌≡◌, inl, inr, refl, sym, ap, ◌∙◌, some, ◌==◌, ==_iff,
  Bool-cases, arith,
}
use osfort.Base.Field.{pow-add}
use osfort.Memory.{Mem}
use osfort.Paging.Table.Invariant.{
  present, walk, digit_at, walk-present, walk-absent, Chain, Chain-zero,
}

-- A walk that ends at a frame has met all its tables.
pub walk-Chain : (n f v x : ℕ) (m : Mem) → walk m (suc n) f v ≡ some x → Chain m n f v n
walk-Chain zero f v x m e = refl
walk-Chain (suc n) f v x m e = elim (Bool-cases (present m f (digit_at (suc n) v))) [
  | inl there ↦ (there, walk-Chain n _ v x m (sym (walk-present (suc n) f v m there) ∙ e))
  | inr absent ↦ absurd (cc (walk-absent (suc n) f v m absent, e))
]

div-pow-split : (v i j : ℕ) → i ≤ j → v / 512 ^ j ≡ v / 512 ^ i / 512 ^ (j - i)
div-pow-split v i j h =
    ap (λ (t : ℕ). v / t) (ap (λ (t : ℕ). 512 ^ t) (omega (arith, h)) ∙ pow-add 512 i (j - i))
    ∙ sym (div-div-eq-div-mul v (512 ^ i) (512 ^ (j - i)))

digit_same : (v w i j : ℕ) → w / 512 ^ i ≡ v / 512 ^ i → i ≤ j → digit_at j w ≡ digit_at j v
digit_same v w i j e h =
    ap (λ (t : ℕ). t % 512)
      (div-pow-split w i j h ∙ ap (λ (t : ℕ). t / 512 ^ (j - i)) e ∙ sym (div-pow-split v i j h))

-- Two pages with the same digits from i on meet the same tables up to there.
pub Chain-shared :
    (d n f v w i : ℕ) (m : Mem)
    → n + 1 ≡ i + d
    → 1 ≤ i
    → w / 512 ^ i ≡ v / 512 ^ i
    → Chain m n f v n
    → Chain m n f w d
Chain-shared zero n f v w i m e low same chain = Chain-zero m n f w
Chain-shared (suc d) zero f v w i m e low same chain = absurd (omega (arith, e, low))
Chain-shared (suc d) (suc n) f v w i m e low same chain =
    let digit : digit_at (suc n) w ≡ digit_at (suc n) v =
      digit_same v w i (suc n) same (omega (arith, e)) in
    rw digit (chain.0, Chain-shared d n _ v w i m (omega (arith, e)) low same chain.1)

-- The tables below the root that the pages before page v start.
abbrev pub tables : ℕ → ℕ
tables v = v / 512 + v / 512 ^ 2 + v / 512 ^ 3

-- Of the three tables of the next page, all are there but those that it starts.
pub Chain-next :
    (root v : ℕ) (m : Mem)
    → Chain m 3 root v 3
    → (d : ℕ) × (Chain m 3 root (v + 1) d × (tables v + 3 ≤ tables (v + 1) + d))
Chain-next root v m chain = elim (Bool-cases ((v + 1) / 512 == v / 512)) [
  | inl leaf ↦ (
    3,
    (
      Chain-shared 3 3 root v (v + 1) 1 m (omega arith) (omega arith) ((==_iff _ _).0 leaf) chain,
      omega arith,
    ),
  )
  | inr leaf' ↦ elim (Bool-cases ((v + 1) / 512 ^ 2 == v / 512 ^ 2)) [
    | inl mid ↦ (
      2,
      (
        Chain-shared 2 3 root v (v + 1) 2 m (omega arith) (omega arith) ((==_iff _ _).0 mid) chain,
        ground arith,
      ),
    )
    | inr mid' ↦ elim (Bool-cases ((v + 1) / 512 ^ 3 == v / 512 ^ 3)) [
      | inl top ↦ (
        1,
        (
          Chain-shared 1 3 root v (v + 1) 3 m (omega arith) (omega arith) ((==_iff _ _).0 top)
              chain,
          ground arith,
        ),
      )
      | inr top' ↦ (0, (Chain-zero m 3 root (v + 1), ground arith))
    ]
  ]
]
