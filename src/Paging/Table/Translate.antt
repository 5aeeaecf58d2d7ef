-- ===== src/Paging/Table/Translate.antt =====
-- vir_to_phys against the processor's walk.
use native.Mathlib.Nat.{pow-le-pow_right, mod-eq_of_lt}
use osfort.Base.{
  ℕ, suc, ◌+◌, ◌*◌, ◌/◌, ◌%◌, ◌^◌, ◌≤◌, ◌<◌, ◌≡◌, inl, inr, refl, ap, sym, ◌∙◌, true, some, arith,
  Bool-cases,
}
use osfort.Memory.{Mem}
use osfort.Paging.{page_size, Pages}
use osfort.Paging.Table.{field_shl, vir_to_phys, map_page, read_entry}
use osfort.Paging.Table.Invariant.{
  entry, present, walk, digit_at, walk-present, walk-absent, IsTables,
}
use osfort.Paging.Table.Map.{page_of, index_at_0, index_at_1, index_at_2, index_at_3, map_page-walk}
use osfort.Paging.Account.{marked}
use osfort.Paging.Request.{frames_of}

-- A walk that arrives has a present entry at its first table.
walk-some :
    (m : Mem) (n f v p : ℕ)
    → walk m (suc n) f v ≡ some p
    → (present m f (digit_at n v) ≡ true) × (walk m n (entry m f (digit_at n v)).addr v ≡ some p)
walk-some m n f v p e = elim (Bool-cases (present m f (digit_at n v))) [
  | inl there ↦ (there, sym (walk-present n f v m there) ∙ e)
  | inr not_there ↦ absurd (cc (walk-absent n f v m not_there, e))
]

walk-zero : (m : Mem) (f v : ℕ) → walk m 0 f v ≡ some f
unfolding walk
walk-zero m f v = refl

-- The entry that the code reads at the table in frame f, and the shifted field.
module _ (width : ℕ) (wide : 40 ≤ width) where
  field_shl-eq : (a : ℕ) → a < 2 ^ 28 → field_shl width a ≡ a * page_size
  field_shl-eq a h =
      let bound : 2 ^ 40 ≤ 2 ^ width =
        pow-le-pow_right {n = 2} (omega arith) {i = 40} {j = width} wide in
      mod-eq_of_lt (omega (arith, bound))

  -- One level: from the table in frame f to the next, which is again a table.
  module _ {root : ℕ} {lv px : ℕ → ℕ} {s : Pages} (t : IsTables root lv px s) where
    next_level :
        (n f v p : ℕ)
        → lv f ≡ suc (suc n)
        → walk s.mem (suc (suc n)) f v ≡ some p
        → (g : ℕ) × (lv g ≡ suc n)
          × (walk s.mem (suc n) g v ≡ some p)
          × (field_shl width (read_entry s.mem (f * page_size) (digit_at (suc n) v)).addr
              ≡ g * page_size)
    next_level n f v p level e =
        let (there, rest) = walk-some s.mem (suc n) f v p e in
        let i = digit_at (suc n) v in
        let down = t.child f i (omega arith) (omega arith) there in
        let g = (entry s.mem f i).addr in
        let lv_g : lv g ≡ suc n = omega (arith, down.0) in
        (g, lv_g, rest, field_shl-eq g (omega (arith, t.inside g (omega arith), t.small)))

    -- For a tree of page tables and a shift width of 40 or more bits: where the processor's walk of the
    -- page arrives at frame p, vir_to_phys returns the address of p, cut to that width.
    pub vir_to_phys-walk :
        (vir p : ℕ)
        → walk s.mem 4 root (page_of vir) ≡ some p
        → vir_to_phys width s.mem (root * page_size) vir ≡ p * page_size % 2 ^ width
    unfolding vir_to_phys
    vir_to_phys-walk vir p e =
        let v = page_of vir in
        let (g3, l3, w3, a3) = next_level 2 root v p t.root_level e in
        let (g2, l2, w2, a2) = next_level 1 g3 v p l3 w3 in
        let (g1, l1, w1, a1) = next_level 0 g2 v p l2 w2 in
        let (there, w0) = walk-some s.mem 0 g1 v p w1 in
        rw (index_at_3 vir, index_at_2 vir, index_at_1 vir, index_at_0 vir, a3, a2, a1)
          (ap (λ (a : ℕ). field_shl width a)
            (cc (w0, walk-zero s.mem (entry s.mem g1 (digit_at 0 v)).addr v)))

-- For a tree of page tables with room for three more frames, a physical address below 2 ^ 40 and a
-- shift width of 40 or more bits: after map_page, vir_to_phys answers at the mapped address with the
-- address of the frame.
pub map_page-vir_to_phys :
    {root : ℕ} {lv px : ℕ → ℕ} {s : Pages} (width vir phys : ℕ)
    → 40 ≤ width
    → IsTables root lv px s
    → marked s + 3 ≤ frames_of s
    → phys < 2 ^ 40
    → vir_to_phys width (map_page s (root * page_size) vir phys).mem (root * page_size) vir
      ≡ phys / page_size * page_size
map_page-vir_to_phys width vir phys wide t room low =
    let (lv', px', t', here, _, _, _, _) = map_page-walk vir phys t room in
    let bound : 2 ^ 40 ≤ 2 ^ width =
      pow-le-pow_right {n = 2} (omega arith) {i = 40} {j = width} wide in
    let fits : phys / page_size % 2 ^ 40 ≡ phys / page_size = omega arith in
    vir_to_phys-walk width wide t' vir (phys / page_size % 2 ^ 40) here
    ∙ ap (λ (q : ℕ). q * page_size % 2 ^ width) fits
    ∙ mod-eq_of_lt (omega (arith, bound))
