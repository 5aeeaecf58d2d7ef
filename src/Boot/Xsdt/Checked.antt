-- ===== src/Boot/Xsdt/Checked.antt =====
-- bootloader.c 476 to 506: the checks of the root tables.
use osfort.Base.{
  ℕ, zero, suc, ◌+◌, ◌%◌, ◌<◌, ◌≡◌, ◌↔◌, ap, ◌∙◌, sym, List, Bool, true, false, if◌then◌else◌, ◌==◌,
  ==_iff, eq→==, not, u8, arith,
}
use osfort.Memory.{Mem, load8}
use osfort.Boot.Xsdt.{
  sum_from, Verdict, invalid_xsdp, invalid_xsdt, valid, xsdt_addr, len, check_tables,
}

-- The sum of the n bytes at an address.
abbrev pub byte_sum : ℕ → Mem → ℕ → ℕ
byte_sum zero m at = 0
byte_sum (suc n) m at = load8 m at + byte_sum n m (at + 1)

sum_from_lem :
    (k i : ℕ) (m : Mem) (at ret : ℕ)
    → ret < 256
    → sum_from k i m at ret ≡ (ret + byte_sum k m (at + i)) % 256
unfolding sum_from
sum_from_lem zero i m at ret h = omega arith
sum_from_lem (suc k) i m at ret h =
    let e : at + (i + 1) ≡ at + i + 1 = omega arith in
    sum_from_lem k (i + 1) m at (u8 (ret + load8 m (at + i))) (omega arith) ∙ rw e (omega arith)

sum_zero : (n : ℕ) (m : Mem) (at : ℕ) → sum_from n 0 m at 0 ≡ byte_sum n m at % 256
sum_zero n m at =
    let start : at + 0 ≡ at = omega arith in
    sum_from_lem n 0 m at 0 (omega arith) ∙ rw start (omega arith)

-- The five tests in their order.
abbrev verdict : Bool → Bool → Bool → Bool → Bool → ℕ → Verdict
verdict p q r s t xsdt =
    if not p
    then invalid_xsdp
    else if not q
    then invalid_xsdp
    else if not r
    then invalid_xsdp
    else if not s
    then invalid_xsdt
    else if not t
    then invalid_xsdt
    else valid xsdt

verdict_iff :
    (p q r s t : Bool) (xsdt : ℕ)
    → (verdict p q r s t xsdt ≡ valid xsdt)
      ↔ ((p ≡ true) × (q ≡ true) × (r ≡ true) × (s ≡ true) × (t ≡ true))
verdict_iff true true true true true xsdt = ground arith
verdict_iff true true true true false xsdt = ground arith
verdict_iff true true true false t xsdt = ground arith
verdict_iff true true false s t xsdt = ground arith
verdict_iff true false r s t xsdt = ground arith
verdict_iff false q r s t xsdt = ground arith

module _ (agrees : Mem → ℕ → List ℕ → Bool) (rsd_ptr xsdt_name : List ℕ) where
  -- The names agree and the bytes of each part sum up to 0 modulo 256.
  pub record IsSound (m : Mem) (xsdp : ℕ) : Type 0 where
    pub named : agrees m xsdp rsd_ptr ≡ true
    pub old_part : byte_sum 20 m xsdp % 256 ≡ 0
    pub whole : byte_sum 36 m xsdp % 256 ≡ 0
    pub root_named : agrees m (xsdt_addr m xsdp) xsdt_name ≡ true
    pub root : byte_sum (len m (xsdt_addr m xsdp)) m (xsdt_addr m xsdp) % 256 ≡ 0

  -- The tables pass exactly when they are sound, whatever the comparison of names is, and the loader
  -- then goes on with the address of the root table.
  pub check_tables_iff :
      (m : Mem) (xsdp : ℕ)
      → (check_tables agrees rsd_ptr xsdt_name m xsdp ≡ valid (xsdt_addr m xsdp)) ↔ IsSound m xsdp
  unfolding check_tables
  check_tables_iff m xsdp =
      let xsdt = xsdt_addr m xsdp in
      let ret20 = sum_from 20 0 m xsdp 0 in
      let ret36 = sum_from 36 0 m xsdp ret20 in
      let ret = sum_from (len m xsdt) 0 m xsdt ret36 in
      let sum20 : ret20 ≡ byte_sum 20 m xsdp % 256 = sum_zero 20 m xsdp in
      let sum36 : ret20 ≡ 0 → ret36 ≡ byte_sum 36 m xsdp % 256 =
        λ z. ap (λ (t : ℕ). sum_from 36 0 m xsdp t) z ∙ sum_zero 36 m xsdp in
      let sum : ret36 ≡ 0 → ret ≡ byte_sum (len m xsdt) m xsdt % 256 =
        λ z. ap (λ (t : ℕ). sum_from (len m xsdt) 0 m xsdt t) z ∙ sum_zero (len m xsdt) m xsdt in
      let (to, from) =
        verdict_iff (agrees m xsdp rsd_ptr) (ret20 == 0) (ret36 == 0) (agrees m xsdt xsdt_name)
          (ret == 0) xsdt in
      (
        λ h.
            let (p, q, r, s, t) = to h in
            let z20 = (==_iff ret20 0).0 q in
            let z36 = (==_iff ret36 0).0 r in
            record {
              named = p;
              old_part = sym sum20 ∙ z20;
              whole = sym (sum36 z20) ∙ z36;
              root_named = s;
              root = sym (sum z36) ∙ (==_iff ret 0).0 t;
            },
        λ sound.
            let z20 = sum20 ∙ sound.old_part in
            let z36 = sum36 z20 ∙ sound.whole in
            from (
              sound.named,
              eq→== ret20 0 z20,
              eq→== ret36 0 z36,
              sound.root_named,
              eq→== ret 0 (sum z36 ∙ sound.root),
            ),
      )
