-- ===== src/Paging/Table/Invariant.antt =====
-- What the processor reads from the page tables, and the invariant of the tables that map_page builds.
use osfort.Base.{
  ℕ, zero, suc, ◌+◌, ◌-◌, ◌*◌, ◌/◌, ◌%◌, ◌^◌, ◌≤◌, ◌<◌, ◌≡◌, ◌≢◌, ◌⊎◌, Bool, true, false, Option,
  none, some, if◌then◌else◌, truthy, ◌==◌, ==_iff, inl, inr, ap, sym, ◌∙◌, refl, Bool-cases, arith,
}
use osfort.Memory.{Mem}
use osfort.Paging.{page_size, Pages, is_taken}
use osfort.Paging.Account.{marked}
use osfort.Paging.Request.{frames_of}
use osfort.Paging.Table.{PageTableEntry, read_entry}

abbrev pub entry : Mem → ℕ → ℕ → PageTableEntry
entry m f i = read_entry m (f * page_size) i

abbrev pub present : Mem → ℕ → ℕ → Bool
present m f i = truthy (entry m f i).p

-- The frame that page number v leads to from the table in frame f, n levels up: at each level nine
-- bits of v choose the entry, and an entry that is not present ends the walk.
unfoldable pub walk : Mem → ℕ → ℕ → ℕ → Option ℕ
walk m zero f v = some f
walk m (suc n) f v =
    let i = v / 512 ^ n % 512 in if present m f i then walk m n (entry m f i).addr v else none

-- `lv f` is the level of the table in frame f (4 at the root, 0 where f holds no table), and `px f`
-- the page numbers' leading digits for which it serves. So no table is entered in two places.
pub record IsTables (root : ℕ) (lv px : ℕ → ℕ) (s : Pages) : Type 0 where
  pub small : frames_of s ≤ 2 ^ 28
  pub root_level : lv root ≡ 4
  pub root_prefix : px root ≡ 0
  pub inside : (f : ℕ) → lv f ≢ 0 → f < frames_of s
  pub taken : (f : ℕ) → lv f ≢ 0 → is_taken s f ≡ true
  pub apart :
      (f : ℕ)
      → lv f ≢ 0
      → (f * page_size + page_size ≤ s.page_bitmap.bitmap.buffer)
        ⊎ (s.page_bitmap.bitmap.buffer + s.page_bitmap.bitmap.size ≤ f * page_size)
  pub map_taken :
      (x : ℕ)
      → s.page_bitmap.bitmap.buffer ≤ x
      → x < s.page_bitmap.bitmap.buffer + s.page_bitmap.bitmap.size
      → (x / page_size < frames_of s) × (is_taken s (x / page_size) ≡ true)
  pub child :
      (f i : ℕ)
      → 2 ≤ lv f
      → i < 512
      → present s.mem f i ≡ true
      → (lv (entry s.mem f i).addr ≡ lv f - 1) × (px (entry s.mem f i).addr ≡ px f * 512 + i)

-- A byte that is neither the map's nor a table's, and whose frame is taken or not in the map.
pub record IsForeign (lv : ℕ → ℕ) (s : Pages) (x : ℕ) : Type 0 where
  pub apart :
      (x < s.page_bitmap.bitmap.buffer)
      ⊎ (s.page_bitmap.bitmap.buffer + s.page_bitmap.bitmap.size ≤ x)
  pub no_table : lv (x / page_size) ≡ 0
  pub owned : (is_taken s (x / page_size) ≡ true) ⊎ (frames_of s ≤ x / page_size)

-- Such bytes stay what they are.
pub record KeepsForeign (lv : ℕ → ℕ) (s : Pages) (lv' : ℕ → ℕ) (s' : Pages) : Type 0 where
  pub same : (x : ℕ) → IsForeign lv s x → s'.mem x ≡ s.mem x
  pub stays : (x : ℕ) → IsForeign lv s x → IsForeign lv' s' x

pub KeepsForeign-refl : (lv : ℕ → ℕ) (s : Pages) → KeepsForeign lv s lv s
KeepsForeign-refl lv s = record { same = λ x h. refl; stays = λ x h. h }

pub KeepsForeign-trans :
    {lv lv1 lv' : ℕ → ℕ} {s s1 s' : Pages}
    → KeepsForeign lv s lv1 s1
    → KeepsForeign lv1 s1 lv' s'
    → KeepsForeign lv s lv' s'
KeepsForeign-trans first rest = record {
  same = λ x h. rest.same x (first.stays x h) ∙ first.same x h;
  stays = λ x h. rest.stays x (first.stays x h);
}

-- A step that makes sure of the table under entry i of frame f, and changes nothing else that a walk
-- can see. It takes one frame at most.
pub record Extended (root f i : ℕ) (lv px lv' px' : ℕ → ℕ) (s s' : Pages) : Type 0 where
  pub tables : IsTables root lv' px' s'
  pub keeps : (h : ℕ) → lv h ≢ 0 → (lv' h ≡ lv h) × (px' h ≡ px h)
  pub grown : marked s' ≤ marked s + 1
  pub same_map : s'.page_bitmap.bitmap ≡ s.page_bitmap.bitmap
  pub walks : (n h v : ℕ) → lv h ≡ suc n → walk s'.mem (suc n) h v ≡ walk s.mem (suc n) h v
  pub others :
      (h j : ℕ) → lv h ≢ 0 → j < 512 → (h ≢ f) ⊎ (j ≢ i) → entry s'.mem h j ≡ entry s.mem h j
  pub linked : present s'.mem f i ≡ true
  pub kept : present s.mem f i ≡ true → s' ≡ s
  pub foreign : KeepsForeign lv s lv' s'

-- The digit of a page number that a table n + 1 levels up is indexed by.
abbrev pub digit_at : ℕ → ℕ → ℕ
digit_at n v = v / 512 ^ n % 512

-- The first d links from the table in frame f, n levels above the lowest, along page number v are
-- there.
abbrev pub Chain : Mem → ℕ → ℕ → ℕ → ℕ → Type 0
Chain m zero f v d = d ≡ 0
Chain m (suc n) f v zero = n ≡ n
Chain m (suc n) f v (suc d) =
    (present m f (digit_at (suc n) v) ≡ true) × Chain m n (entry m f (digit_at (suc n) v)).addr v d

pub Chain-zero : (m : Mem) (n f v : ℕ) → Chain m n f v 0
Chain-zero m zero f v = refl
Chain-zero m (suc n) f v = refl

module _ (n f v : ℕ) where
  pub walk-absent : (m : Mem) → present m f (digit_at n v) ≡ false → walk m (suc n) f v ≡ none
  unfolding walk
  walk-absent m e = rw e refl

  pub walk-present :
      (m : Mem)
      → present m f (digit_at n v) ≡ true
      → walk m (suc n) f v ≡ walk m n (entry m f (digit_at n v)).addr v
  unfolding walk
  walk-present m e = rw e refl

  -- Two memories with the same entry give the same walk if they do from the next table on.
  pub walk_cong :
      (m m' : Mem)
      → entry m f (digit_at n v) ≡ entry m' f (digit_at n v)
      → (present m' f (digit_at n v) ≡ true
          → walk m n (entry m' f (digit_at n v)).addr v
            ≡ walk m' n (entry m' f (digit_at n v)).addr v)
      → walk m (suc n) f v ≡ walk m' (suc n) f v
  walk_cong m m' e next =
      let p : present m f (digit_at n v) ≡ present m' f (digit_at n v) =
        ap (λ (r : PageTableEntry). truthy r.p) e in
      let a : (entry m f (digit_at n v)).addr ≡ (entry m' f (digit_at n v)).addr =
        ap (λ (r : PageTableEntry). r.addr) e in
      elim (Bool-cases (present m' f (digit_at n v))) [
        | inl yes' ↦
            walk-present m (p ∙ yes')
            ∙ ap (λ (x : ℕ). walk m n x v) a
            ∙ next yes'
            ∙ sym (walk-present m' yes')
        | inr no' ↦ walk-absent m (p ∙ no') ∙ sym (walk-absent m' no')
      ]

pub same_place : (h f j i : ℕ) → ((h ≡ f) × (j ≡ i)) ⊎ ((h ≢ f) ⊎ (j ≢ i))
same_place h f j i = elim (Bool-cases (h == f)) [
  | inl e ↦ elim (Bool-cases (j == i)) [
    | inl e' ↦ inl ((==_iff h f).0 e, (==_iff j i).0 e')
    | inr n ↦ inr (inr (ground arith))
  ]
  | inr n ↦ inr (inl (ground arith))
]
