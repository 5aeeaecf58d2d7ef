-- ===== src/Boot/Xsdt/Last.antt =====
-- bootloader.c 470 to 475: which of the firmware's tables the loader takes for the XSDP.
use mathlib.Core.Path.{subst}
use osfort.Base.{
  ℕ, zero, suc, ◌+◌, ◌*◌, ◌≤◌, ◌<◌, ◌≡◌, ◌⊎◌, inl, inr, refl, Option, none, some, Bool-cases, arith,
}
use osfort.Base.Arith.{eq-or-later}
use osfort.Memory.{Mem, load64}
use osfort.Boot.Guid.{Same, guidcmp, guidcmp_iff}
use osfort.Boot.Xsdt.{find_from, find_xsdp}

-- The GUID of entry i is the one looked for, byte by byte.
abbrev pub Named : Mem → ℕ → ℕ → ℕ → Type 0
Named m table acpi20 i = Same m acpi20 (table + 24 * i) 16

-- Entry i is the last of [lo, hi) with the GUID.
pub record IsLast (m : Mem) (table acpi20 lo hi i : ℕ) : Type 0 where
  pub above : lo ≤ i
  pub below : i < hi
  pub named : Named m table acpi20 i
  pub last : (j : ℕ) → i < j → j < hi → ¬ Named m table acpi20 j

-- The address of the last entry, or what was there before where no entry has the GUID.
abbrev pub Chosen : Mem → ℕ → ℕ → ℕ → ℕ → Option ℕ → Option ℕ → Type 0
Chosen m table acpi20 lo hi xsdp r =
    ((i : ℕ) × IsLast m table acpi20 lo hi i × (r ≡ some (load64 m (table + 24 * i + 16))))
    ⊎ (((j : ℕ) → lo ≤ j → j < hi → ¬ Named m table acpi20 j) × (r ≡ xsdp))

module _ (m : Mem) (table acpi20 i hi : ℕ) (xsdp r : Option ℕ) where
  taken_here :
      Named m table acpi20 i
      → i < hi
      → Chosen m table acpi20 (i + 1) hi (some (load64 m (table + 24 * i + 16))) r
      → Chosen m table acpi20 i hi xsdp r
  taken_here named h (inl (j, found, e)) = inl (
    j,
    record {
      above = omega (arith, found.above);
      below = found.below;
      named = found.named;
      last = found.last;
    },
    e,
  )
  taken_here named h (inr (others, e)) = inl (
    i,
    record {
      above = omega arith;
      below = h;
      named = named;
      last = λ j p q. others j (omega arith) q;
    },
    e,
  )

  passed_over :
      ¬ Named m table acpi20 i
      → Chosen m table acpi20 (i + 1) hi xsdp r
      → Chosen m table acpi20 i hi xsdp r
  passed_over other (inl (j, found, e)) = inl (
    j,
    record {
      above = omega (arith, found.above);
      below = found.below;
      named = found.named;
      last = found.last;
    },
    e,
  )
  passed_over other (inr (others, e)) = inr (
    λ j p q. elim (eq-or-later i j p) [
      | inl here ↦ subst (λ t. ¬ Named m table acpi20 t) here other
      | inr later ↦ others j later q
    ],
    e,
  )

find_from-Chosen :
    (k i hi : ℕ) (m : Mem) (table acpi20 : ℕ) (xsdp : Option ℕ)
    → i + k ≡ hi
    → Chosen m table acpi20 i hi xsdp (find_from k i m table acpi20 xsdp)
unfolding find_from
find_from-Chosen zero i hi m table acpi20 xsdp e =
    inr (λ j p q. absurd (omega (arith, e, p, q)), refl)
find_from-Chosen (suc k) i hi m table acpi20 xsdp e =
    let (to, from) = guidcmp_iff m acpi20 (table + 24 * i) in
    let rest =
      λ (x : Option ℕ). find_from-Chosen k (i + 1) hi m table acpi20 x (omega (arith, e)) in
    elim (Bool-cases (guidcmp m acpi20 (table + 24 * i))) [
      | inl named ↦
          rw named (taken_here m table acpi20 i hi xsdp _ (to named) (omega (arith, e)) (rest _))
      | inr other ↦
          rw other (passed_over m table acpi20 i hi xsdp _ (λ h. cc (from h, other)) (rest xsdp))
    ]

-- For any configuration table: find_xsdp gives the address in the last entry whose GUID agrees in all
-- 16 bytes with the one looked for, or leaves the variable unset where no entry's does.
pub find_xsdp-Chosen :
    (m : Mem) (number table acpi20 : ℕ)
    → Chosen m table acpi20 0 number none (find_xsdp m number table acpi20)
unfolding find_xsdp
find_xsdp-Chosen m number table acpi20 =
    find_from-Chosen number 0 number m table acpi20 none (omega arith)
