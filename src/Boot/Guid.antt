-- ===== src/Boot/Guid.antt =====
-- bootloader.c 10 to 27: memcmp and guidcmp.
use osfort.Base.{
  ℕ, zero, suc, ◌+◌, ◌-◌, ltb, ltb→lt, ◌≤◌, ◌<◌, ◌≡◌, ◌↔◌, refl, Bool, true, false, ◌&&◌,
  if◌then◌else◌, ◌==◌, ==_iff, not, Bool-cases, inl, inr, arith,
}
use osfort.Base.Arith.{eq-or-later}
use osfort.Memory.{Mem, load8, load32, load_bytes}
use osfort.Memory.Laws.{load8-lt}

-- The loop of memcmp at byte i with k bytes left.
unfoldable pub memcmp_from : ℕ → ℕ → Mem → ℕ → ℕ → Bool
memcmp_from zero i m mem1 mem2 = true
memcmp_from (suc k) i m mem1 mem2 =
    let rest = memcmp_from k (i + 1) m mem1 mem2 in
    if not (load8 m (mem1 + i) == load8 m (mem2 + i)) then false else rest

unfoldable pub memcmp : Mem → ℕ → ℕ → ℕ → Bool
memcmp m mem1 mem2 size = memcmp_from size 0 m mem1 mem2

-- An EFI_GUID lies at each address: Data1, Data2, Data3 and the array Data4.
unfoldable pub guidcmp : Mem → ℕ → ℕ → Bool
guidcmp m g1 g2 =
    load32 m g1 == load32 m g2
    && load_bytes 2 m (g1 + 4) == load_bytes 2 m (g2 + 4)
    && load_bytes 2 m (g1 + 6) == load_bytes 2 m (g2 + 6)
    && memcmp m (g1 + 8) (g2 + 8) 8

-- The n bytes at a and b are the same.
abbrev pub Same : Mem → ℕ → ℕ → ℕ → Type 0
Same m a b n = (i : ℕ) → i < n → load8 m (a + i) ≡ load8 m (b + i)

memcmp_from_iff :
    (k i : ℕ) (m : Mem) (a b : ℕ)
    → (memcmp_from k i m a b ≡ true)
      ↔ ((j : ℕ) → i ≤ j → j < i + k → load8 m (a + j) ≡ load8 m (b + j))
unfolding memcmp_from
memcmp_from_iff zero i m a b = (λ h j p q. absurd (omega arith), λ h. refl)
memcmp_from_iff (suc k) i m a b =
    let (to, from) = memcmp_from_iff k (i + 1) m a b in
    elim (Bool-cases (load8 m (a + i) == load8 m (b + i))) [
      | inl same ↦
          let e = (==_iff _ _).0 same in
          rw same (
            λ h j p q. elim (eq-or-later i j p) [
              | inl here ↦ rw (← here) e
              | inr p' ↦ to h j p' (omega arith)
            ],
            λ h. from (λ j p q. h j (omega arith) (omega arith)),
          )
      | inr other ↦ rw other (
        λ h. absurd (ground (arith, h)),
        λ h. absurd (ground (arith, other, h i (omega arith) (omega arith))),
      )
    ]

pub memcmp_iff : (m : Mem) (a b n : ℕ) → (memcmp m a b n ≡ true) ↔ Same m a b n
unfolding memcmp
memcmp_iff m a b n =
    let (to, from) = memcmp_from_iff n 0 m a b in
    (λ h j q. to h j (omega arith) (omega arith), λ h. from (λ j p q. h j (omega arith)))

-- Ranges one after the other.
Same-append :
    (m : Mem) (a b k n : ℕ) → Same m a b (k + n) ↔ (Same m a b k × Same m (a + k) (b + k) n)
Same-append m a b k n = (
  λ h. (
    λ i q. h i (omega arith),
    λ i q.
        let e : a + k + i ≡ a + (k + i) = omega arith in
        let e' : b + k + i ≡ b + (k + i) = omega arith in rw (e, e') (h (k + i) (omega arith)),
  ),
  λ (low, high) i q. elim (Bool-cases (ltb i k)) [
    | inl inside ↦ low i (ltb→lt i k inside)
    | inr beyond ↦
        let e : a + k + (i - k) ≡ a + i = ground arith in
        let e' : b + k + (i - k) ≡ b + i = ground arith in
        rw (e, e') at (high (i - k) (ground arith))
  ],
)

Same-one : (m : Mem) (a b : ℕ) → Same m a b 1 ↔ (load8 m a ≡ load8 m b)
Same-one m a b =
    let e : a + 0 ≡ a = omega arith in
    let e' : b + 0 ≡ b = omega arith in
    (
      λ h. rw (e, e') at (h 0 (omega arith)),
      λ h i q. let z : i ≡ 0 = omega arith in rw z (rw (e, e') h),
    )

-- Words are equal when their bytes are.
load_bytes_iff : (n : ℕ) (m : Mem) (a b : ℕ) → (load_bytes n m a ≡ load_bytes n m b) ↔ Same m a b n
unfolding load_bytes
load_bytes_iff zero m a b = (λ h i q. absurd (omega arith), λ h. refl)
load_bytes_iff (suc n) m a b =
    let (to, from) = load_bytes_iff n m (a + 1) (b + 1) in
    let (split, join) = Same-append m a b 1 n in
    let (first, first') = Same-one m a b in
    let x = load8-lt m a in
    let y = load8-lt m b in
    let e : suc n ≡ 1 + n = omega arith in
    (
      λ h. rw e (join (first' (omega (arith, h, x, y)), to (omega (arith, h, x, y)))),
      λ h. let (low, high) = split (rw e at h) in omega (arith, first low, from high),
    )

all_four :
    (p q r s : Bool)
    → (p && q && r && s ≡ true) ↔ ((p ≡ true) × (q ≡ true) × (r ≡ true) × (s ≡ true))
all_four true true true s = ground arith
all_four true true false s = ground arith
all_four true false r s = ground arith
all_four false q r s = ground arith

-- guidcmp answers true exactly when all 16 bytes of the two GUIDs are the same.
pub guidcmp_iff : (m : Mem) (g1 g2 : ℕ) → (guidcmp m g1 g2 ≡ true) ↔ Same m g1 g2 16
unfolding guidcmp
guidcmp_iff m g1 g2 =
    let (a, a') = load_bytes_iff 4 m g1 g2 in
    let (b, b') = load_bytes_iff 2 m (g1 + 4) (g2 + 4) in
    let (c, c') = load_bytes_iff 2 m (g1 + 6) (g2 + 6) in
    let (d, d') = memcmp_iff m (g1 + 8) (g2 + 8) 8 in
    let (split, join) = Same-append m g1 g2 8 8 in
    let (split', join') = Same-append m g1 g2 4 4 in
    let e : g1 + 4 + 2 ≡ g1 + 6 = omega arith in
    let e' : g2 + 4 + 2 ≡ g2 + 6 = omega arith in
    let (split'', join'') = rw (e, e') at (Same-append m (g1 + 4) (g2 + 4) 2 2) in
    (
      λ h.
          let (p, q, r, s) = (all_four _ _ _ _).0 h in
          join (
            join' (a ((==_iff _ _).0 p), join'' (b ((==_iff _ _).0 q), c ((==_iff _ _).0 r))),
            d s,
          ),
      λ h.
          let (low, high) = split h in
          let (first, rest) = split' low in
          let (second, third) = split'' rest in
          (all_four _ _ _ _).1 (
            (==_iff _ _).1 (a' first),
            (==_iff _ _).1 (b' second),
            (==_iff _ _).1 (c' third),
            d' high,
          ),
    )
