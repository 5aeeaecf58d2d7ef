-- ===== src/Paging/Table/Ensure.antt =====
-- The descent of map_page: next_table at each upper level, down to a table of the lowest level.
use mathlib.Core.Path.{subst}
use osfort.Base.{
  ℕ, zero, suc, ◌+◌, ◌*◌, ◌/◌, ◌^◌, ◌≤◌, ◌<◌, ◌≡◌, ◌≢◌, inl, refl, ap, sym, ◌∙◌, truthy, arith,
}
use osfort.Memory.{Mem}
use osfort.Bitmap.{Bitmap}
use osfort.Paging.{page_size, Pages}
use osfort.Paging.Account.{marked}
use osfort.Paging.Request.{frames_of}
use osfort.Paging.Table.{PageTableEntry, next_table}
use osfort.Paging.Table.Invariant.{
  entry, walk, digit_at, walk-present, IsTables, Extended, Chain, Chain-zero, KeepsForeign,
  KeepsForeign-refl, KeepsForeign-trans,
}
use osfort.Paging.Table.Extend.{next_table-Linked}
use osfort.Paging.Table.Place.{digit_prefix}

-- n levels down from `table` along the page number v.
unfoldable pub ensure : ℕ → Pages → ℕ → ℕ → Pages × ℕ
ensure zero s table v = (s, table)
ensure (suc n) s table v =
    ensure n (next_table s table (digit_at (suc n) v)).0 (next_table s table (digit_at (suc n) v)).1
      v

-- From the table in frame f, n levels above the lowest, the descent comes to the table in frame `pt`.
pub record Ensured (root n f v : ℕ) (lv : ℕ → ℕ) (s : Pages) (r : Pages × ℕ) (lv' px' : ℕ → ℕ)
    (pt : ℕ) : Type 0 where
  pub tables : IsTables root lv' px' r.0
  pub leaf : lv' pt ≡ 1
  pub prefix : px' pt ≡ v / 512
  pub found : r.1 ≡ pt * page_size
  pub keeps : (h : ℕ) → lv h ≢ 0 → lv' h ≡ lv h
  pub same_map : r.0.page_bitmap.bitmap ≡ s.page_bitmap.bitmap
  pub grown : (d : ℕ) → Chain s.mem n f v d → marked r.0 + d ≤ marked s + n
  pub foreign : KeepsForeign lv s lv' r.0
  pub walks : (k h w : ℕ) → lv h ≡ suc k → walk r.0.mem (suc k) h w ≡ walk s.mem (suc k) h w
  pub above : (h j : ℕ) → suc n < lv h → j < 512 → entry r.0.mem h j ≡ entry s.mem h j
  pub path :
      (m : Mem)
      → ((h j : ℕ) → 2 ≤ lv' h → j < 512 → entry m h j ≡ entry r.0.mem h j)
      → walk m (suc n) f v ≡ walk m 1 pt v

abbrev pub Descent : ℕ → ℕ → ℕ → ℕ → (ℕ → ℕ) → Pages → Pages × ℕ → Type 0
Descent root n f v lv s r =
    (lv' : ℕ → ℕ) × (px' : ℕ → ℕ) × (pt : ℕ) × Ensured root n f v lv s r lv' px' pt

-- A link that is there costs no frame.
step-grown :
    (n : ℕ) {root f v : ℕ} {lv px lv1 px1 : ℕ → ℕ} {s s1 : Pages} {r : Pages × ℕ} {lv' px' : ℕ → ℕ}
    {pt : ℕ}
    → Extended root f (digit_at (suc n) v) lv px lv1 px1 s s1
    → Ensured root n (entry s1.mem f (digit_at (suc n) v)).addr v lv1 s1 r lv' px' pt
    → (d : ℕ) → Chain s.mem (suc n) f v d
    → marked r.0 + d ≤ marked s + suc n
step-grown n {f = f} {v} {s1 = s1} ext rest zero chain = omega (
  arith,
  rest.grown 0 (Chain-zero s1.mem n (entry s1.mem f (digit_at (suc n) v)).addr v),
  ext.grown,
)
step-grown n {f = f} {v} {s = s} {s1} ext rest (suc d) chain =
    let same : s1 ≡ s = ext.kept chain.0 in
    omega (
      arith,
      rest.grown d (
          subst (λ (t : Pages). Chain t.mem n (entry t.mem f (digit_at (suc n) v)).addr v d)
            (sym same) chain.1),
      ap marked same,
    )

-- One level more: the step that makes sure of the next table, and the descent from there.
Ensured-step :
    (n : ℕ) {root f v : ℕ} {lv px lv1 px1 : ℕ → ℕ} {s s1 : Pages} {r : Pages × ℕ} {lv' px' : ℕ → ℕ}
    {pt : ℕ}
    → lv f ≡ suc (suc n)
    → Extended root f (digit_at (suc n) v) lv px lv1 px1 s s1
    → Ensured root n (entry s1.mem f (digit_at (suc n) v)).addr v lv1 s1 r lv' px' pt
    → Ensured root (suc n) f v lv s r lv' px' pt
Ensured-step n {f = f} {v = v} {lv = lv} {lv1 = lv1} {s1 = s1} {r = r} {lv' = lv'} level ext rest =
    record {
      tables = rest.tables;
      leaf = rest.leaf;
      prefix = rest.prefix;
      found = rest.found;
      keeps = λ h used. let e = (ext.keeps h used).0 in rest.keeps h (λ z. used (sym e ∙ z)) ∙ e;
      same_map = rest.same_map ∙ ext.same_map;
      grown = step-grown n ext rest;
      foreign = KeepsForeign-trans ext.foreign rest.foreign;
      walks = λ k h w e. rest.walks k h w ((ext.keeps h (omega arith)).0 ∙ e) ∙ ext.walks k h w e;
      above = λ h j q hj.
          rest.above h j (omega (arith, (ext.keeps h (omega arith)).0)) hj
          ∙ ext.others h j (omega arith) hj (inl (λ e. omega (arith, ap lv e)));
      path = λ m same.
          let i = digit_at (suc n) v in
          let level1 : lv1 f ≡ suc (suc n) = (ext.keeps f (omega arith)).0 ∙ level in
          let level' : lv' f ≡ suc (suc n) = rest.keeps f (omega arith) ∙ level1 in
          let e : entry m f i ≡ entry s1.mem f i =
            same f i (omega arith) (omega arith) ∙ rest.above f i (omega arith) (omega arith) in
          walk-present (suc n) f v m (ap (λ (x : PageTableEntry). truthy x.p) e ∙ ext.linked)
          ∙ ap (λ (x : PageTableEntry). walk m (suc n) x.addr v) e
          ∙ rest.path m same;
    }

pub ensure-Descent :
    (n : ℕ) {root : ℕ} {lv px : ℕ → ℕ} {s : Pages} (f v : ℕ)
    → IsTables root lv px s
    → lv f ≡ suc n
    → px f ≡ v / 512 ^ suc n
    → marked s + n ≤ frames_of s
    → Descent root n f v lv s (ensure n s (f * page_size) v)
unfolding ensure
ensure-Descent zero {lv} {px} {s} f v t level pre room = (
  lv,
  px,
  f,
  record {
    tables = t;
    leaf = level;
    prefix = pre;
    found = refl;
    keeps = λ h used. refl;
    same_map = refl;
    grown = λ d chain. omega (arith, chain);
    foreign = KeepsForeign-refl lv s;
    walks = λ k h w e. refl;
    above = λ h j q hj. refl;
    path = λ m same. refl;
  },
)
ensure-Descent (suc n) {root} {lv} {px} {s} f v t level pre room =
    let i = digit_at (suc n) v in
    let (lv1, px1, ext, result) =
      next_table-Linked t f i (omega arith) (omega arith) (omega arith) in
    let s1 = (next_table s (f * page_size) i).0 in
    let g = (entry s1.mem f i).addr in
    let down =
      ext.tables.child f i (omega (arith, (ext.keeps f (omega arith)).0)) (omega arith)
        ext.linked in
    let rest =
      ensure-Descent n g v ext.tables (omega (arith, down.0, (ext.keeps f (omega arith)).0))
        (down.1
          ∙ ap (λ (x : ℕ). x * 512 + i) (ext.keeps f (omega arith)).1
          ∙ digit_prefix n v (px f) pre)
        (omega (arith, ext.grown, ap (λ (b : Bitmap). b.size * 8) ext.same_map)) in
    rw result (rest.0, rest.1, rest.2, Ensured-step n level ext rest.3)
