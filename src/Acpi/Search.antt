-- ===== src/Acpi/Search.antt =====
-- dev/acpi/acpi.c, acpi_get_table.
use osfort.Base.{
  ℕ, zero, suc, ◌+◌, ◌<◌, ◌≤◌, ◌≡◌, ◌≢◌, ◌↔◌, ◌⊎◌, inl, inr, refl, true, Bool-cases, arith,
}
use osfort.Base.Arith.{eq-or-later}
use osfort.Memory.{Mem}
use osfort.Sys.Str.{Sign, minus_one, nought, one, strncmp}
use osfort.Sys.Str.Laws.{cstr, strncmp_iff}
use osfort.Acpi.{is_nought, entries, entry, get_table_from, acpi_get_table}

-- Entry i is the first of [lo, hi) whose signature is the name.
pub record IsFirst (m : Mem) (xsdt name lo hi i : ℕ) : Type 0 where
  pub above : lo ≤ i
  pub below : i < hi
  pub named : cstr 4 m (entry m xsdt i) ≡ cstr 4 m name
  pub first : (j : ℕ) → lo ≤ j → j < i → cstr 4 m (entry m xsdt j) ≢ cstr 4 m name

-- The result is the first entry with the name, or it is NULL and no entry has it.
abbrev pub Found : Mem → ℕ → ℕ → ℕ → ℕ → ℕ → Type 0
Found m xsdt name lo hi r =
    ((i : ℕ) × IsFirst m xsdt name lo hi i × (r ≡ entry m xsdt i))
    ⊎ (((j : ℕ) → lo ≤ j → j < hi → cstr 4 m (entry m xsdt j) ≢ cstr 4 m name) × (r ≡ 0))

is_nought_iff : (s : Sign) → (is_nought s ≡ true) ↔ (s ≡ nought)
is_nought_iff minus_one = ground arith
is_nought_iff nought = ground arith
is_nought_iff one = ground arith

-- The test of the loop, on names.
named_iff :
    (m : Mem) (header name : ℕ)
    → (is_nought (strncmp m header name 4) ≡ true) ↔ (cstr 4 m header ≡ cstr 4 m name)
named_iff m header name =
    let (a, b) = is_nought_iff (strncmp m header name 4) in
    let (c, d) = strncmp_iff m header name 4 in (λ t. c (a t), λ e. b (d e))

get_table_from-Found :
    (k i hi : ℕ) (m : Mem) (xsdt name : ℕ)
    → i + k ≡ hi
    → Found m xsdt name i hi (get_table_from k i m xsdt name)
unfolding get_table_from
get_table_from-Found zero i hi m xsdt name e = inr (λ j p q. absurd (omega arith), refl)
get_table_from-Found (suc k) i hi m xsdt name e =
    let t = strncmp m (entry m xsdt i) name 4 in
    elim (Bool-cases (is_nought t)) [
      | inl here ↦ rw here (
          inl (
            i,
            record {
              above = omega arith;
              below = omega arith;
              named = (named_iff m _ name).0 here;
              first = λ j p q. absurd (omega arith);
            },
            refl,
          ))
      | inr other ↦
          let not_here : cstr 4 m (entry m xsdt i) ≢ cstr 4 m name =
            λ same. ground (arith, (named_iff m _ name).1 same, other) in
          let step : (j : ℕ)
              → i ≤ j
              → (i + 1 ≤ j → cstr 4 m (entry m xsdt j) ≢ cstr 4 m name)
              → cstr 4 m (entry m xsdt j) ≢ cstr 4 m name =
            λ j p later. elim (eq-or-later i j p) [
              | inl same ↦ rw (← same) not_here
              | inr p' ↦ later p'
            ] in
          rw other (elim (get_table_from-Found k (i + 1) hi m xsdt name (omega arith)) [
            | inl (f, found, r) ↦ inl (
              f,
              record {
                above = omega (arith, found.above);
                below = found.below;
                named = found.named;
                first = λ j p q. step j p (λ p'. found.first j p' q);
              },
              r,
            )
            | inr (all, r) ↦ inr (λ j p q. step j p (λ p'. all j p' q), r)
          ])
    ]

-- The search over the whole of the root table: the result is the first entry whose four-byte
-- signature is the name, or it is NULL and no entry has that signature.
pub acpi_get_table-Found :
    (m : Mem) (xsdt name : ℕ) → Found m xsdt name 0 (entries m xsdt) (acpi_get_table m xsdt name)
unfolding acpi_get_table
acpi_get_table-Found m xsdt name =
    get_table_from-Found (entries m xsdt) 0 (entries m xsdt) m xsdt name (omega arith)
