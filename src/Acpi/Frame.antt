-- ===== src/Acpi/Frame.antt =====
-- dev/acpi/acpi.c, acpi_get_table: what of the memory it reads.
use osfort.Base.{ℕ, zero, suc, ◌+◌, ◌*◌, ◌/◌, ◌≤◌, ◌<◌, ◌≡◌, refl, ap, ◌∙◌, u64, sub64, arith}
use osfort.Memory.{Mem}
use osfort.Memory.Laws.{load8_cong, load_bytes_ext}
use osfort.Sys.Str.{strncmp_from, strncmp}
use osfort.Acpi.{sizeof_header, len_at, entries, entry, get_table_from, acpi_get_table}

-- Two memories with the same n bytes from a on.
abbrev pub SameRange : Mem → Mem → ℕ → ℕ → Type 0
SameRange m' m a n = (x : ℕ) → a ≤ x → x < a + n → m' x ≡ m x

strncmp_from_ext :
    (k i : ℕ) (m m' : Mem) (s1 s2 : ℕ)
    → SameRange m' m (s1 + i) k
    → SameRange m' m (s2 + i) k
    → strncmp_from k i m' s1 s2 ≡ strncmp_from k i m s1 s2
unfolding strncmp_from
strncmp_from_ext zero i m m' s1 s2 h h' = refl
strncmp_from_ext (suc k) i m m' s1 s2 h h' =
    let a = load8_cong m' m (s1 + i) (h (s1 + i) (omega arith) (omega arith)) in
    let b = load8_cong m' m (s2 + i) (h' (s2 + i) (omega arith) (omega arith)) in
    let rest =
      strncmp_from_ext k (i + 1) m m' s1 s2 (λ x p q. h x (omega arith) (omega arith))
        (λ x p q. h' x (omega arith) (omega arith)) in
    rw (a, b, rest) refl

strncmp_ext :
    (n : ℕ) (m m' : Mem) (s1 s2 : ℕ)
    → SameRange m' m s1 n
    → SameRange m' m s2 n
    → strncmp m' s1 s2 n ≡ strncmp m s1 s2 n
unfolding strncmp
strncmp_ext n m m' s1 s2 h h' =
    strncmp_from_ext n 0 m m' s1 s2 (λ x p q. h x (omega arith) (omega arith))
      (λ x p q. h' x (omega arith) (omega arith))

-- The length of the table, its entries, the signatures that they lead to, and the name.
pub record IsReadable (Out : ℕ → Type 0) (m : Mem) (xsdt name : ℕ) : Type 0 where
  pub length : (x : ℕ) → xsdt + len_at ≤ x → x < xsdt + len_at + 4 → Out x
  pub listed :
      (i x : ℕ)
      → i < entries m xsdt
      → u64 (xsdt + sizeof_header + 8 * i) ≤ x
      → x < u64 (xsdt + sizeof_header + 8 * i) + 8
      → Out x
  pub signatures :
      (i x : ℕ) → i < entries m xsdt → entry m xsdt i ≤ x → x < entry m xsdt i + 4 → Out x
  pub named : (x : ℕ) → name ≤ x → x < name + 4 → Out x

module _ {Out : ℕ → Type 0} (m m' : Mem) (xsdt name : ℕ) (readable : IsReadable Out m xsdt name)
    (same : (x : ℕ) → Out x → m' x ≡ m x) where
  entry_same : (i : ℕ) → i < entries m xsdt → entry m' xsdt i ≡ entry m xsdt i
  entry_same i h =
      load_bytes_ext 8 m' m (u64 (xsdt + sizeof_header + 8 * i))
        (λ x p q. same x (readable.listed i x h p q))

  get_table_from_same :
      (k i : ℕ)
      → i + k ≡ entries m xsdt
      → get_table_from k i m' xsdt name ≡ get_table_from k i m xsdt name
  unfolding get_table_from
  get_table_from_same zero i e = refl
  get_table_from_same (suc k) i e =
      let below : i < entries m xsdt = omega (arith, e) in
      let here = entry_same i below in
      let found =
        strncmp_ext 4 m m' (entry m xsdt i) name
          (λ x p q. same x (readable.signatures i x below p q))
          (λ x p q. same x (readable.named x p q)) in
      let rest = get_table_from_same k (i + 1) (omega (arith, e)) in rw (here, found, rest) refl

  entries_same : entries m' xsdt ≡ entries m xsdt
  entries_same =
      ap (λ (t : ℕ). sub64 t sizeof_header / 8)
        (load_bytes_ext 4 m' m (xsdt + len_at) (λ x p q. same x (readable.length x p q)))

  -- A search that reads only bytes that are the same finds the same.
  pub acpi_get_table_same : acpi_get_table m' xsdt name ≡ acpi_get_table m xsdt name
  unfolding acpi_get_table
  acpi_get_table_same =
      ap (λ (k : ℕ). get_table_from k 0 m' xsdt name) entries_same
      ∙ get_table_from_same (entries m xsdt) 0 (omega arith)
