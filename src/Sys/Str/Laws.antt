-- ===== src/Sys/Str/Laws.antt =====
-- What memcpy, memset and strncmp promise.
use osfort.Base.{
  ℕ, zero, suc, ◌+◌, ◌-◌, ◌%◌, ◌≤◌, ◌<◌, ◌≡◌, refl, sym, ap, ◌∙◌, ◌⊎◌, Bool-cases, ==_iff, inl, inr,
  ◌&&◌, List, [], ◌∷◌, ◌==◌, ltb, leb, truthy, if◌then◌else◌, arith, ◌↔◌,
}
use osfort.Memory.{Mem, load8, store8}
use osfort.Memory.Laws.{
  load8-store8_self, store8-ne, load8_cong, load8-store8_ne, load8-mod, load8-lt,
}
use osfort.Sys.Str.{
  memcpy_from, memcpy, memset_from, memset, char_gt, strncmp_from, strncmp, Sign, minus_one, nought,
  one,
}

-- A byte outside [s + i, s + i + k) is left alone.
memset_from_frame :
    (k i : ℕ) (m : Mem) (s c x : ℕ) → (x < s + i) ⊎ (s + i + k ≤ x) → memset_from k i m s c x ≡ m x
unfolding memset_from
memset_from_frame zero i m s c x h = refl
memset_from_frame (suc k) i m s c x h =
    memset_from_frame k (i + 1) (store8 m (s + i) c) s c x (omega arith)
    ∙ store8-ne m (s + i) c x (omega arith)

memset_from_fill :
    (k i : ℕ) (m : Mem) (s c x : ℕ)
    → s + i ≤ x
    → x < s + i + k
    → load8 (memset_from k i m s c) x ≡ c % 256
unfolding memset_from
memset_from_fill zero i m s c x p q = absurd (omega arith)
memset_from_fill (suc k) i m s c x p q = elim (Bool-cases (s + i == x)) [
  | inl e ↦
      let e' : s + i ≡ x = (==_iff _ _).0 e in
      load8_cong (memset_from k (i + 1) (store8 m (s + i) c) s c) (store8 m (s + i) c) x
        (memset_from_frame k (i + 1) (store8 m (s + i) c) s c x (omega arith))
      ∙ rw (← e') (load8-store8_self m (s + i) c)
  | inr n ↦ memset_from_fill k (i + 1) (store8 m (s + i) c) s c x (ground arith) (omega arith)
]

-- memset fills [s, s + n) with the low byte of c and changes no other byte.
pub memset_lem :
    (m : Mem) (s c n x : ℕ)
    → load8 (memset m s c n) x ≡ (if leb s x && ltb x (s + n) then c % 256 else load8 m x)
unfolding memset
memset_lem m s c n x = ground (
  arith,
  memset_from_fill n 0 m s c x,
  memset_from_frame n 0 m s c x,
  load8_cong (memset_from n 0 m s c) m x,
)

pub memset_frame : (m : Mem) (s c n x : ℕ) → (x < s) ⊎ (s + n ≤ x) → memset m s c n x ≡ m x
unfolding memset
memset_frame m s c n x h = memset_from_frame n 0 m s c x (omega arith)

memcpy_from_frame :
    (k i : ℕ) (m : Mem) (s1 s2 x : ℕ)
    → (x < s1 + i) ⊎ (s1 + i + k ≤ x)
    → memcpy_from k i m s1 s2 x ≡ m x
unfolding memcpy_from
memcpy_from_frame zero i m s1 s2 x h = refl
memcpy_from_frame (suc k) i m s1 s2 x h =
    memcpy_from_frame k (i + 1) (store8 m (s1 + i) (load8 m (s2 + i))) s1 s2 x (omega arith)
    ∙ store8-ne m (s1 + i) (load8 m (s2 + i)) x (omega arith)

memcpy_from_copy :
    (k i : ℕ) (m : Mem) (s1 s2 j : ℕ)
    → (s1 + i + k ≤ s2 + i) ⊎ (s2 + i + k ≤ s1 + i)
    → i ≤ j
    → j < i + k
    → load8 (memcpy_from k i m s1 s2) (s1 + j) ≡ load8 m (s2 + j)
unfolding memcpy_from
memcpy_from_copy zero i m s1 s2 j apart p q = absurd (omega arith)
memcpy_from_copy (suc k) i m s1 s2 j apart p q =
    let m' = store8 m (s1 + i) (load8 m (s2 + i)) in
    elim (Bool-cases (i == j)) [
      | inl e ↦
          let e' : i ≡ j = (==_iff _ _).0 e in
          rw (← e') (
            load8_cong (memcpy_from k (i + 1) m' s1 s2) m' (s1 + i)
              (memcpy_from_frame k (i + 1) m' s1 s2 (s1 + i) (omega arith))
            ∙ load8-store8_self m (s1 + i) (load8 m (s2 + i))
            ∙ load8-mod m (s2 + i))
      | inr n ↦
          let lt : i < j = ground arith in
          memcpy_from_copy k (i + 1) m' s1 s2 j (omega arith) (omega arith) (omega arith)
          ∙ load8-store8_ne m (s1 + i) (load8 m (s2 + i)) (s2 + j) (omega arith)
    ]

-- For regions that do not overlap (`restrict`), memcpy makes the n bytes at s1 equal to those that
-- stood at s2, and changes no other byte.
pub memcpy_lem :
    (m : Mem) (s1 s2 n x : ℕ)
    → (s1 + n ≤ s2) ⊎ (s2 + n ≤ s1)
    → load8 (memcpy m s1 s2 n) x
      ≡ (if leb s1 x && ltb x (s1 + n) then load8 m (s2 + (x - s1)) else load8 m x)
unfolding memcpy
memcpy_lem m s1 s2 n x apart = elim (Bool-cases (leb s1 x && ltb x (s1 + n))) [
  | inl inside ↦
      let place : s1 + (x - s1) ≡ x = ground (arith, inside) in
      rw inside (
        ap (load8 (memcpy_from n 0 m s1 s2)) (sym place)
        ∙ memcpy_from_copy n 0 m s1 s2 (x - s1) (omega arith) (omega arith)
            (ground (arith, inside)))
  | inr outside ↦ rw outside (
      load8_cong (memcpy_from n 0 m s1 s2) m x
        (memcpy_from_frame n 0 m s1 s2 x (ground (arith, outside))))
]

-- The string at s, as far as strncmp reads it: up to its first 0 byte, and n bytes at most.
abbrev pub cstr : ℕ → Mem → ℕ → List ℕ
cstr zero m s = []
cstr (suc n) m s = if truthy (load8 m s) then load8 m s ∷ cstr n m (s + 1) else []

cstr_cons :
    (k : ℕ) (m : Mem) (s i : ℕ)
    → cstr (suc k) m (s + i)
      ≡ (if truthy (load8 m (s + i)) then load8 m (s + i) ∷ cstr k m (s + (i + 1)) else [])
cstr_cons k m s i = let e : s + i + 1 ≡ s + (i + 1) = omega arith in rw (← e)

strncmp_from_iff :
    (k i : ℕ) (m : Mem) (s1 s2 : ℕ)
    → (strncmp_from k i m s1 s2 ≡ nought) ↔ (cstr k m (s1 + i) ≡ cstr k m (s2 + i))
unfolding strncmp_from
strncmp_from_iff zero i m s1 s2 = (λ _. refl, λ _. refl)
strncmp_from_iff (suc k) i m s1 s2 =
    ground (arith, cstr_cons k m s1 i, cstr_cons k m s2 i, strncmp_from_iff k (i + 1) m s1 s2)

-- strncmp of n bytes answers 0 exactly when the two strings agree up to their first 0 byte or
-- their n-th byte.
pub strncmp_iff :
    (m : Mem) (s1 s2 n : ℕ) → (strncmp m s1 s2 n ≡ nought) ↔ (cstr n m s1 ≡ cstr n m s2)
unfolding strncmp
strncmp_iff m s1 s2 n =
    let a : s1 + 0 ≡ s1 = omega arith in
    let b : s2 + 0 ≡ s2 = omega arith in rw (a) at (rw (b) at (strncmp_from_iff n 0 m s1 s2))

abbrev pub flip : Sign → Sign
flip minus_one = one
flip nought = nought
flip one = minus_one

strncmp_from-flip :
    (k i : ℕ) (m : Mem) (s1 s2 : ℕ) → strncmp_from k i m s2 s1 ≡ flip (strncmp_from k i m s1 s2)
unfolding strncmp_from char_gt
strncmp_from-flip zero i m s1 s2 = refl
strncmp_from-flip (suc k) i m s1 s2 =
    ground (arith, strncmp_from-flip k (i + 1) m s1 s2, load8-lt m (s1 + i), load8-lt m (s2 + i))

-- Exchanging the two strings exchanges -1 and 1, and keeps 0.
pub strncmp-flip : (m : Mem) (s1 s2 n : ℕ) → strncmp m s2 s1 n ≡ flip (strncmp m s1 s2 n)
unfolding strncmp
strncmp-flip m s1 s2 n = strncmp_from-flip n 0 m s1 s2
