-- ===== src/Boot/Directory/Ends.antt =====
-- bootloader.c 265 to 285: the search of a directory.
use osfort.Base.{
  ℕ, zero, suc, ◌+◌, ◌*◌, ◌≤◌, ◌<◌, ◌≡◌, ◌⊎◌, inl, inr, refl, none, some, Bool, true, false, ltb,
  ltb-false, lt→ltb, u32, u64, Bool-cases, arith, ap, ◌∙◌, if◌then◌else◌,
}
use osfort.Memory.{Mem}
use osfort.Boot.Directory.{rec_len, name_len, name_at, found, gave_up, search}

module _ (same_name : Mem → ℕ → Bool) (m : Mem) (block_cnt : ℕ) where
  -- The n-th entry after the one at start.
  unfoldable pub entry_at : ℕ → ℕ → ℕ
  entry_at start zero = start
  entry_at start (suc n) = entry_at (start + rec_len m start) n

  abbrev pub is_it : ℕ → ℕ → Bool
  is_it start n = same_name m (name_at (entry_at start n))

  -- The name fits the record.
  abbrev pub Fits : ℕ → ℕ → Type 0
  Fits start n = name_len m (entry_at start n) + 8 ≤ rec_len m (entry_at start n)

  abbrev pub limit : ℕ
  limit = u32 (block_cnt * 512)

  -- What the search comes to at entry n, with any fuel above n: it finds the entry; or it stays there
  -- for ever; or it gives up, which it does at entry limit + 1 only.
  abbrev pub Ending : ℕ → ℕ → ℕ → Type 0
  Ending i start n =
      ((is_it start n ≡ true)
        × ((fuel : ℕ)
            → n < fuel
            → search same_name fuel i block_cnt m start ≡ some (found (entry_at start n))))
      ⊎ (((is_it start n ≡ false)
            × ((rec_len m (entry_at start n) < name_len m (entry_at start n) + 8)
                × ((fuel : ℕ) → search same_name fuel i block_cnt m start ≡ none)))
          ⊎ ((is_it start n ≡ false)
              × (Fits start n
                  × ((i + n ≡ limit + 1)
                      × ((fuel : ℕ)
                          → n < fuel
                          → search same_name fuel i block_cnt m start ≡ some gave_up)))))

  -- The search at round i stops at entry n: the entries before it have other names, which fit. Each
  -- of these is 8 bytes or longer.
  abbrev pub Stops : ℕ → ℕ → Type 0
  Stops i start =
      (n : ℕ) × ((i + n ≤ limit + 1)
        × (((j : ℕ) → j < n → (is_it start j ≡ false) × Fits start j)
            × ((start + 8 * n ≤ entry_at start n) × Ending i start n)))

  -- One round of the search at an entry of another name that fits its record.
  search-round :
      (fuel i start : ℕ)
      → same_name m (name_at start) ≡ false
      → name_len m start + 8 ≤ rec_len m start
      → i ≤ limit + 1
      → search same_name (suc fuel) i block_cnt m start ≡ (
          if ltb limit i
          then some gave_up
          else search same_name fuel (i + 1) block_cnt m (start + rec_len m start))
  unfolding search
  search-round fuel i start other fit reach =
      let counted : u64 (i + 1) ≡ i + 1 = omega arith in
      rw (other, ltb-false (rec_len m start) (name_len m start + 8) fit, counted) refl

  search-here :
      (fuel i start : ℕ)
      → same_name m (name_at start) ≡ true
      → search same_name (suc fuel) i block_cnt m start ≡ some (found start)
  unfolding search
  search-here fuel i start here = rw here refl

  -- A statement with any fuel above 0 is one with a successor.
  with_fuel :
      (P : ℕ → Type 0) (n : ℕ)
      → ((fuel : ℕ) → n ≤ fuel → P (suc fuel))
      → (fuel : ℕ) → n < fuel
      → P fuel
  with_fuel P n h zero q = absurd (omega (arith, q))
  with_fuel P n h (suc fuel) q = h fuel (omega (arith, q))

  any_fuel : (P : ℕ → Type 0) → P 0 → ((fuel : ℕ) → P (suc fuel)) → (fuel : ℕ) → P fuel
  any_fuel P none_left h zero = none_left
  any_fuel P none_left h (suc fuel) = h fuel

  -- An entry that does not fit its record holds the search for ever.
  stuck_here :
      (fuel i start : ℕ)
      → same_name m (name_at start) ≡ false
      → rec_len m start < name_len m start + 8
      → search same_name fuel i block_cnt m start ≡ none
  unfolding search
  stuck_here zero i start other broken = refl
  stuck_here (suc fuel) i start other broken =
      rw (other, lt→ltb (rec_len m start) (name_len m start + 8) broken)
        (stuck_here fuel (u64 (i + 1)) start other broken)

  -- What the search comes to after an entry of another name, it comes to before.
  Ending-suc :
      (i start n : ℕ)
      → same_name m (name_at start) ≡ false
      → name_len m start + 8 ≤ rec_len m start
      → i ≤ limit
      → Ending (i + 1) (start + rec_len m start) n
      → Ending i start (suc n)
  unfolding entry_at
  Ending-suc i start n other fit reach ending =
      let under : ltb limit i ≡ false = ground arith in
      let step = λ (fuel : ℕ).
        search-round fuel i start other fit (omega (arith, reach))
        ∙ ap
            (λ b.
              if b
              then some gave_up
              else search same_name fuel (i + 1) block_cnt m (start + rec_len m start))
            under in
      elim ending [
        | inl (it, runs) ↦
            inl (it, with_fuel _ (suc n) (λ fuel q. step fuel ∙ runs fuel (omega (arith, q))))
        | inr (inl (differs, (broken, runs))) ↦ inr (
            inl (
              differs,
              (broken, any_fuel _ (unfold search in refl) (λ fuel. step fuel ∙ runs fuel)),
            ))
        | inr (inr (differs, (fits, (last, runs)))) ↦ inr (
            inr (
              differs,
              (
                fits,
                (
                  omega (arith, last),
                  with_fuel _ (suc n) (λ fuel q. step fuel ∙ runs fuel (omega (arith, q))),
                ),
              ),
            ))
      ]

  Stops-suc :
      (i start : ℕ)
      → same_name m (name_at start) ≡ false
      → name_len m start + 8 ≤ rec_len m start
      → i ≤ limit
      → Stops (i + 1) (start + rec_len m start)
      → Stops i start
  unfolding entry_at
  Stops-suc i start other fit reach (n, (inside, (before, (far, ending)))) = (
    suc n,
    (
      omega (arith, inside),
      (earlier, (omega (arith, far, fit), Ending-suc i start n other fit reach ending)),
    ),
  )
    where
      earlier : (j : ℕ) → j < suc n → (is_it start j ≡ false) × Fits start j
      earlier zero q = (other, fit)
      earlier (suc j) q = before j (omega arith)

  Stops-here : (i start : ℕ) → i ≤ limit + 1 → Ending i start 0 → Stops i start
  unfolding entry_at
  Stops-here i start reach ending =
      (0, (omega (arith, reach), (λ j q. absurd (omega (arith, q)), (omega arith, ending))))

  -- A round, where it is known what comes after an entry of another name that fits its record.
  round-Stops :
      (i start : ℕ)
      → i ≤ limit + 1
      → (same_name m (name_at start) ≡ false
          → name_len m start + 8 ≤ rec_len m start
          → Stops i start)
      → Stops i start
  unfolding entry_at
  round-Stops i start reach after = elim (Bool-cases (same_name m (name_at start))) [
    | inl here ↦
        Stops-here i start reach
          (inl (here, with_fuel _ 0 (λ fuel q. search-here fuel i start here)))
    | inr other ↦ elim (Bool-cases (ltb (rec_len m start) (name_len m start + 8))) [
      | inl broken ↦
          let short : rec_len m start < name_len m start + 8 = ground (arith, broken) in
          Stops-here i start reach
            (inr (inl (other, (short, λ fuel. stuck_here fuel i start other short))))
      | inr whole ↦ after other (ground (arith, whole))
    ]
  ]

  search-Stops_from : (k i start : ℕ) → i + k ≡ limit + 1 → Stops i start
  unfolding entry_at
  search-Stops_from zero i start e = round-Stops i start (omega (arith, e)) (λ other fit.
      let over : ltb limit i ≡ true = ground (arith, e) in
      let gives_up = λ (fuel : ℕ).
        search-round fuel i start other fit (omega (arith, e))
        ∙ ap
            (λ b.
              if b
              then some gave_up
              else search same_name fuel (i + 1) block_cnt m (start + rec_len m start))
            over in
      Stops-here i start (omega (arith, e))
        (inr (inr (other, (fit, (omega (arith, e), with_fuel _ 0 (λ fuel q. gives_up fuel)))))))
  search-Stops_from (suc k) i start e = round-Stops i start (omega (arith, e)) (λ other fit.
      Stops-suc i start other fit (omega (arith, e))
        (search-Stops_from k (i + 1) (start + rec_len m start) (omega (arith, e))))

-- For any directory and any comparison of names, the search stops at one of the first 512 * block_cnt
-- + 2 entries (modulo 2 ^ 32), number n; the entries before it have other names, which fit their
-- records. Either entry n has the name, and it is found, with any fuel above n; or its name does not
-- fit its record and differs, and the search ends with no fuel at all; or it is the last of them, of
-- another name that fits, and the search gives up. Entry n lies 8 * n bytes or more after the first,
-- so that the search gives up only when it has left a buffer of 512 * block_cnt bytes.
pub search-Stops :
    (same_name : Mem → ℕ → Bool) (m : Mem) (block_cnt start : ℕ)
    → Stops same_name m block_cnt 0 start
search-Stops same_name m block_cnt start =
    search-Stops_from same_name m block_cnt (u32 (block_cnt * 512) + 1) 0 start (omega arith)
