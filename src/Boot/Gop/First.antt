-- ===== src/Boot/Gop/First.antt =====
-- bootloader.c 57 to 71: the search of the modes.
use mathlib.Core.Path.{subst}
use osfort.Base.{
  ℕ, zero, suc, ◌+◌, ◌≤◌, ◌<◌, ◌≡◌, ◌⊎◌, inl, inr, refl, sym, Bool, true, false, ◌&&◌, ◌==◌,
  Bool-cases, if◌then◌else◌, Option, none, some, arith,
}
use osfort.Base.Arith.{eq-or-later}
use osfort.Boot.Gop.{GraphicsMode, not_queried, not_set, mode, set_mode, choose_from, choose_mode}

abbrev pub is_wanted : ℕ × ℕ → Bool
is_wanted info = info.0 == 1920 && info.1 == 1080

-- Mode i can be queried and has 1920 by 1080 pixels, or has not.
abbrev pub Wanted : (ℕ → Option (ℕ × ℕ)) → ℕ → Type 0
Wanted query_mode i = (info : ℕ × ℕ) × ((query_mode i ≡ some info) × (is_wanted info ≡ true))

abbrev pub Unwanted : (ℕ → Option (ℕ × ℕ)) → ℕ → Type 0
Unwanted query_mode i = (info : ℕ × ℕ) × ((query_mode i ≡ some info) × (is_wanted info ≡ false))

-- The loop over the modes [lo, hi) comes to a wanted mode, which it sets, or to one that cannot be
-- queried, or it leaves the current mode; all modes before can be queried and are not wanted.
abbrev pub Chosen : (ℕ → Option (ℕ × ℕ)) → (ℕ → Bool) → ℕ → ℕ → ℕ → GraphicsMode → Type 0
Chosen query_mode set_fails lo hi current r =
    (i : ℕ) × ((lo ≤ i)
      × ((i ≤ hi)
          × (((j : ℕ) → lo ≤ j → j < i → Unwanted query_mode j)
              × (((i < hi) × (Wanted query_mode i × (r ≡ set_mode query_mode set_fails i)))
                  ⊎ (((i < hi) × ((query_mode i ≡ none) × (r ≡ not_queried)))
                      ⊎ ((i ≡ hi) × (r ≡ mode current)))))))

module _ (query_mode : ℕ → Option (ℕ × ℕ)) (set_fails : ℕ → Bool) where
  choose_from-none :
      (k i current : ℕ)
      → query_mode i ≡ none
      → choose_from query_mode set_fails (suc k) i current ≡ not_queried
  unfolding choose_from
  choose_from-none k i current e = rw (choose_from, e) refl

  choose_from-some :
      (k i current : ℕ) (info : ℕ × ℕ) (b : Bool)
      → query_mode i ≡ some info
      → is_wanted info ≡ b
      → choose_from query_mode set_fails (suc k) i current ≡ (
          if b
          then set_mode query_mode set_fails i
          else choose_from query_mode set_fails k (i + 1) current)
  unfolding choose_from
  choose_from-some k i current info b e w = rw (choose_from, e, w) refl

  -- A mode that is not wanted is passed over.
  pass_over :
      (lo hi current : ℕ) (r : GraphicsMode)
      → Unwanted query_mode lo
      → Chosen query_mode set_fails (lo + 1) hi current r
      → Chosen query_mode set_fails lo hi current r
  pass_over lo hi current r unwanted (i, (above, (below, (before, ending)))) = (
    i,
    (
      omega (arith, above),
      (
        below,
        (
          λ j p q. elim (eq-or-later lo j p) [
            | inl here ↦ subst (Unwanted query_mode) here unwanted
            | inr later ↦ before j later q
          ],
          ending,
        ),
      ),
    ),
  )

  -- The search ends at mode i.
  ends_here :
      (i hi current : ℕ) (r : GraphicsMode)
      → i ≤ hi
      → ((i < hi) × (Wanted query_mode i × (r ≡ set_mode query_mode set_fails i)))
        ⊎ (((i < hi) × ((query_mode i ≡ none) × (r ≡ not_queried)))
            ⊎ ((i ≡ hi) × (r ≡ mode current)))
      → Chosen query_mode set_fails i hi current r
  ends_here i hi current r below ending =
      (i, (omega arith, (below, (λ j p q. absurd (omega (arith, p, q)), ending))))

  query_cases : (q : Option (ℕ × ℕ)) → (q ≡ none) ⊎ ((info : ℕ × ℕ) × (q ≡ some info))
  query_cases none = inl refl
  query_cases (some info) = inr (info, refl)

  choose_from-Chosen :
      (k i hi current : ℕ)
      → i + k ≡ hi
      → Chosen query_mode set_fails i hi current (choose_from query_mode set_fails k i current)
  choose_from-Chosen zero i hi current e =
      ends_here i hi current _ (omega (arith, e))
        (inr (inr (omega (arith, e), unfold choose_from in refl)))
  choose_from-Chosen (suc k) i hi current e =
      let below : i < hi = omega (arith, e) in
      let rest = choose_from-Chosen k (i + 1) hi current (omega (arith, e)) in
      elim (query_cases (query_mode i)) [
        | inl bad ↦
            ends_here i hi current _ (omega (arith, below))
              (inr (inl (below, (bad, choose_from-none k i current bad))))
        | inr (info, good) ↦ elim (Bool-cases (is_wanted info)) [
          | inl wanted ↦ ends_here i hi current _ (omega (arith, below)) (
              inl (
                below,
                ((info, (good, wanted)), choose_from-some k i current info true good wanted),
              ))
          | inr unwanted ↦
              let passed = choose_from-some k i current info false good unwanted in
              subst (Chosen query_mode set_fails i hi current) (sym passed)
                (pass_over i hi current _ (info, (good, unwanted)) rest)
        ]
      ]

-- A protocol that has not started is at mode 0 afterwards, unless that mode cannot be set.
choose_mode-start :
    (query_mode : ℕ → Option (ℕ × ℕ)) (set_fails : ℕ → Bool) (mode_count current : ℕ) (b : Bool)
    → set_fails 0 ≡ b
    → choose_mode query_mode set_fails true mode_count current
      ≡ (if b then not_set else choose_from query_mode set_fails mode_count 0 0)
unfolding choose_mode set_mode
choose_mode-start query_mode set_fails mode_count current true e = rw e refl
choose_mode-start query_mode set_fails mode_count current false e = rw e refl

-- For any modes: where the protocol has not started and mode 0 cannot be set, choose_mode stops with
-- that. Else it sets the first mode of 1920 by 1080 pixels that it comes to, or tells that this set
-- failed; it stops before at the first mode that cannot be queried; and where all can be queried and
-- none is wanted, it leaves the current mode, which is 0 where the protocol has not started.
pub choose_mode-Chosen :
    (query_mode : ℕ → Option (ℕ × ℕ)) (set_fails : ℕ → Bool) (not_started : Bool)
    (mode_count current : ℕ)
    → ((not_started ≡ true)
        × ((set_fails 0 ≡ true)
            × (choose_mode query_mode set_fails not_started mode_count current ≡ not_set)))
      ⊎ Chosen query_mode set_fails 0 mode_count
          (if not_started then 0 else current)
          (choose_mode query_mode set_fails not_started mode_count current)
unfolding choose_mode
choose_mode-Chosen query_mode set_fails false mode_count current =
    inr (choose_from-Chosen query_mode set_fails mode_count 0 mode_count current (omega arith))
choose_mode-Chosen query_mode set_fails true mode_count current = elim (Bool-cases (set_fails 0)) [
  | inl fails ↦
      inl (refl, (fails, choose_mode-start query_mode set_fails mode_count current true fails))
  | inr set ↦ inr (
      subst (Chosen query_mode set_fails 0 mode_count 0)
        (sym (choose_mode-start query_mode set_fails mode_count current false set))
        (choose_from-Chosen query_mode set_fails mode_count 0 mode_count 0 (omega arith)))
]
