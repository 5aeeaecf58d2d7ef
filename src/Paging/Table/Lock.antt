-- ===== src/Paging/Table/Lock.antt =====
-- boot/kernel/paging.c, lock_pages between two calls of map_pages: the tables stay what they are.
use mathlib.Core.Path.{subst}
use osfort.Base.{
  ℕ, zero, suc, ◌+◌, ◌*◌, ◌/◌, ◌^◌, ◌≤◌, ◌<◌, ◌≡◌, ◌≢◌, ◌⊎◌, inl, inr, refl, sym, ap, ◌∙◌, true,
  Bool-cases, truthy, ltb, ltb→lt, u64, arith,
}
use osfort.Memory.{Mem}
use osfort.Bitmap.{Bitmap}
use osfort.Bitmap.Laws.{IsSized, get_bitmap-set_bitmap, set_bitmap-refused, set_bitmap_frame}
use osfort.Paging.{page_size, Pages, is_taken, mark, lock_page, each_page, lock_pages}
use osfort.Paging.Account.{marked, marked-set}
use osfort.Paging.Request.{frames_of}
use osfort.Paging.Table.{PageTableEntry}
use osfort.Paging.Table.Entry.{read_entry_page}
use osfort.Paging.Table.Invariant.{entry, walk, digit_at, walk_cong, IsTables, KeepsForeign}

-- Between s and s' bits of the same map were set at most, n of them.
pub record IsKept (n : ℕ) (s s' : Pages) : Type 0 where
  pub same_map : s'.page_bitmap.bitmap ≡ s.page_bitmap.bitmap
  pub frame :
      (x : ℕ)
      → (x < s.page_bitmap.bitmap.buffer)
        ⊎ (s.page_bitmap.bitmap.buffer + s.page_bitmap.bitmap.size ≤ x)
      → s'.mem x ≡ s.mem x
  pub keeps : (j : ℕ) → j < frames_of s → is_taken s j ≡ true → is_taken s' j ≡ true
  pub grown : marked s' ≤ marked s + n

IsKept-refl : (n : ℕ) (s : Pages) → IsKept n s s
IsKept-refl n s = record {
  same_map = refl;
  frame = λ x out. refl;
  keeps = λ j h on. on;
  grown = omega arith;
}

module _ {k n : ℕ} {s s1 s' : Pages} where
  IsKept-trans : IsKept k s s1 → IsKept n s1 s' → IsKept (k + n) s s'
  IsKept-trans first rest =
      let size = ap (λ (b : Bitmap). b.size) first.same_map in
      let buffer = ap (λ (b : Bitmap). b.buffer) first.same_map in
      record {
        same_map = rest.same_map ∙ first.same_map;
        frame = λ x out. rest.frame x (omega (arith, out, size, buffer)) ∙ first.frame x out;
        keeps = λ j h on. rest.keeps j (omega (arith, h, size)) (first.keeps j h on);
        grown = omega (arith, first.grown, rest.grown);
      }

-- A page of the map, or one behind the bit that follows the map's last.
pub lock_page-IsKept :
    (s : Pages) (addr : ℕ)
    → IsSized s.page_bitmap.bitmap
    → addr / page_size ≢ frames_of s
    → IsKept 1 s (lock_page s addr)
unfolding lock_page
lock_page-IsKept s addr sized ne =
    let i = addr / page_size in
    let b = s.page_bitmap.bitmap in
    elim (Bool-cases (is_taken s i)) [
      | inl on ↦ rw on (IsKept-refl 1 s)
      | inr off ↦ rw off (elim (Bool-cases (ltb i (frames_of s))) [
        | inl in_map ↦
            let below : i < frames_of s = ltb→lt i (frames_of s) in_map in
            record {
              same_map = refl;
              frame = λ x out. set_bitmap_frame s.mem b i 1 x (omega (arith, below));
              keeps = λ j h on.
                  let bit =
                    (get_bitmap-set_bitmap s.mem b i j 1 (b.buffer + b.size) sized below h
                      (inr (omega arith))).1 in
                  ground (arith, bit, on);
              grown = omega (arith, marked-set s i sized below off);
            }
        | inr out_map ↦
            let same : mark s i 1 ≡ s.mem =
              ap (λ (r : Mem × ℕ). r.0)
                (set_bitmap-refused s.mem b i 1 sized (ground (arith, ne, out_map))) in
            rw same (record {
              same_map = refl;
              frame = λ x out. refl;
              keeps = λ j h on. on;
              grown = omega arith;
            })
      ])
    ]

-- The tables, and what a walk finds in them.
module _ {n : ℕ} {root : ℕ} {lv px : ℕ → ℕ} {s s' : Pages} (t : IsTables root lv px s)
    (kept : IsKept n s s') where
  entry_kept : (h j : ℕ) → lv h ≢ 0 → j < 512 → entry s'.mem h j ≡ entry s.mem h j
  entry_kept h j used hj =
      read_entry_page s'.mem s.mem h j hj (λ x p q. kept.frame x (omega (arith, t.apart h used)))

  pub kept-walk : (k h v : ℕ) → lv h ≡ suc k → walk s'.mem (suc k) h v ≡ walk s.mem (suc k) h v
  kept-walk zero h v e =
      walk_cong zero h v s'.mem s.mem (entry_kept h (digit_at zero v) (omega arith) (omega arith))
        (λ _. unfold walk in refl)
  kept-walk (suc k) h v e =
      walk_cong (suc k) h v s'.mem s.mem
        (entry_kept h (digit_at (suc k) v) (omega arith) (omega arith))
        (λ there.
          let down = t.child h (digit_at (suc k) v) (omega arith) (omega arith) there in
          kept-walk k (entry s.mem h (digit_at (suc k) v)).addr v (omega (arith, down.0, e)))

  pub kept-IsTables : IsTables root lv px s'
  kept-IsTables =
      let size = ap (λ (b : Bitmap). b.size) kept.same_map in
      let buffer = ap (λ (b : Bitmap). b.buffer) kept.same_map in
      record {
        small = omega (arith, t.small, size);
        root_level = t.root_level;
        root_prefix = t.root_prefix;
        inside = λ f used. omega (arith, t.inside f used, size);
        taken = λ f used. kept.keeps f (t.inside f used) (t.taken f used);
        apart = λ f used. omega (arith, t.apart f used, size, buffer);
        map_taken = λ x p q.
            let (lt, on) =
              t.map_taken x (omega (arith, p, buffer)) (omega (arith, q, size, buffer)) in
            (omega (arith, lt, size), kept.keeps (x / page_size) lt on);
        child = λ h j deep hj there.
            let e = entry_kept h j (omega arith) hj in
            let old =
              t.child h j deep hj (sym (ap (λ (r : PageTableEntry). truthy r.p) e) ∙ there) in
            (
              ap (λ (r : PageTableEntry). lv r.addr) e ∙ old.0,
              ap (λ (r : PageTableEntry). px r.addr) e ∙ old.1,
            );
      }

  pub kept-KeepsForeign : KeepsForeign lv s lv s'
  kept-KeepsForeign =
      let size = ap (λ (b : Bitmap). b.size) kept.same_map in
      let buffer = ap (λ (b : Bitmap). b.buffer) kept.same_map in
      record {
        same = λ x h. kept.frame x h.apart;
        stays = λ x h. record {
          apart = omega (arith, h.apart, size, buffer);
          no_table = h.no_table;
          owned = elim (Bool-cases (ltb (x / page_size) (frames_of s))) [
            | inl in_map ↦
                let below : x / page_size < frames_of s = ltb→lt _ _ in_map in
                elim h.owned [
                  | inl on ↦ inl (kept.keeps (x / page_size) below on)
                  | inr far ↦ absurd (omega (arith, far, below))
                ]
            | inr out_map ↦ inr (ground (arith, out_map, size))
          ];
        };
      }

-- A run of pages that does not meet the bit behind the map's last.
abbrev pub IsOffEnd : ℕ → ℕ → ℕ → Type 0
IsOffEnd frames addr page_cnt = (addr / page_size + page_cnt ≤ frames) ⊎ (frames < addr / page_size)

each_page-IsKept :
    (k i : ℕ) (s : Pages) (addr : ℕ)
    → IsSized s.page_bitmap.bitmap
    → addr + (i + k) * page_size ≤ 2 ^ 64
    → (addr / page_size + (i + k) ≤ frames_of s) ⊎ (frames_of s < addr / page_size + i)
    → IsKept k s (each_page lock_page k i s addr)
unfolding each_page
each_page-IsKept zero i s addr sized fits off = IsKept-refl 0 s
each_page-IsKept (suc k) i s addr sized fits off =
    let a = u64 (addr + u64 (i * page_size)) in
    let here : a / page_size ≡ addr / page_size + i = omega (arith, fits) in
    let first = lock_page-IsKept s a sized (omega (arith, here, off)) in
    let size = ap (λ (b : Bitmap). b.size) first.same_map in
    let rest =
      each_page-IsKept k (i + 1) (lock_page s a) addr (omega (arith, sized, size))
        (omega (arith, fits)) (omega (arith, off, size)) in
    let sum : 1 + k ≡ suc k = omega arith in
    subst (λ (c : ℕ). IsKept c s (each_page lock_page k (i + 1) (lock_page s a) addr)) sum
      (IsKept-trans first rest)

pub lock_pages-IsKept :
    (s : Pages) (addr page_cnt : ℕ)
    → IsSized s.page_bitmap.bitmap
    → addr + page_cnt * page_size ≤ 2 ^ 64
    → IsOffEnd (frames_of s) addr page_cnt
    → IsKept page_cnt s (lock_pages s addr page_cnt)
unfolding lock_pages
lock_pages-IsKept s addr page_cnt sized fits off =
    each_page-IsKept page_cnt 0 s addr sized (omega (arith, fits)) (omega (arith, off))
