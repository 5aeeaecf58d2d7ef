-- ===== src/Paging/Table/Fresh.antt =====
-- A fresh frame as a table: the memory after make_table, byte by byte and entry by entry.
use osfort.Base.{
  ℕ, ◌+◌, ◌-◌, ◌*◌, ◌/◌, ◌≤◌, ◌<◌, ◌≡◌, ◌≢◌, ◌⊎◌, inl, inr, refl, ap, ◌∙◌, Bool, true, false,
  if◌then◌else◌, ◌==◌, truthy, arith, Bool-cases, leb, ltb,
}
use osfort.Memory.{Mem}
use osfort.Sys.Str.{memset}
use osfort.Sys.Str.Laws.{memset_frame}
use osfort.Bitmap.{Bitmap, get_bitmap}
use osfort.Bitmap.Laws.{IsSized, get_bitmap-set_bitmap, bit_of_ext, get_bitmap_ext}
use osfort.Paging.{page_size, Pages, is_taken, mark}
use osfort.Paging.Count.{count, count_ext}
use osfort.Paging.Account.{marked, marked-set}
use osfort.Paging.Request.{frames_of}
use osfort.Paging.Table.{PageTableEntry, zero_entry, write_entry}
use osfort.Paging.Table.Entry.{
  IsEntry, read_entry_page, write_entry_frame, read_entry-write_entry_self,
  read_entry-write_entry_ne, read_entry-memset,
}
use osfort.Paging.Table.Invariant.{entry, present, IsTables}

-- The frames of the map's own bytes are taken.
abbrev pub MapTaken : Pages → Type 0
MapTaken s =
    (x : ℕ)
    → s.page_bitmap.bitmap.buffer ≤ x
    → x < s.page_bitmap.bitmap.buffer + s.page_bitmap.bitmap.size
    → (x / page_size < frames_of s) × (is_taken s (x / page_size) ≡ true)

-- A clear frame does not overlap the map's own bytes, whose frames are taken.
pub free-apart :
    (s : Pages) (g : ℕ)
    → MapTaken s
    → g < frames_of s
    → is_taken s g ≡ false
    → (g * page_size + page_size ≤ s.page_bitmap.bitmap.buffer)
      ⊎ (s.page_bitmap.bitmap.buffer + s.page_bitmap.bitmap.size ≤ g * page_size)
free-apart s g map_taken lt clear =
    let lo = s.page_bitmap.bitmap.buffer in
    let hi = lo + s.page_bitmap.bitmap.size in
    let at_lo : (lo / page_size ≡ g) → lo < hi → ⊥ =
      λ e p. cc (clear, rw e at (map_taken lo (omega arith) p).1) in
    let at_page : lo ≤ g * page_size → g * page_size < hi → ⊥ = λ p q.
      let e : g * page_size / page_size ≡ g = omega arith in
      cc (clear, rw e at (map_taken (g * page_size) p q).1) in
    elim (Bool-cases (leb lo (g * page_size))) [
      | inl le ↦ elim (Bool-cases (ltb (g * page_size) hi)) [
        | inl in_map ↦ absurd (at_page (ground arith) (ground arith))
        | inr out ↦ inr (ground arith)
      ]
      | inr gt ↦ elim (Bool-cases (ltb lo (g * page_size + page_size))) [
        | inl in_page ↦ absurd (at_lo (ground arith) (ground arith))
        | inr out ↦ inl (ground arith)
      ]
    ]

pub if_truthy :
    (c : Bool) (n : ℕ)
    → truthy (if c then (if truthy 1 then 1 else 0) else n) ≡ (if c then true else truthy n)
if_truthy true n = refl
if_truthy false n = refl

-- The new entry, the memory after the three writes, and the levels and prefixes with the new table.
abbrev pub fresh_entry : ℕ → PageTableEntry
fresh_entry g = record zero_entry { p = 1; rw = 1; addr = g }

abbrev pub fresh_mem : Pages → ℕ → ℕ → ℕ → Mem
fresh_mem s f i g =
    write_entry (memset (mark s g 1) (g * page_size) 0 page_size) (f * page_size) i (fresh_entry g)

abbrev pub fresh_lv : (ℕ → ℕ) → ℕ → ℕ → ℕ → ℕ
fresh_lv lv f g h = if h == g then lv f - 1 else lv h

abbrev pub fresh_px : (ℕ → ℕ) → ℕ → ℕ → ℕ → ℕ → ℕ
fresh_px px f i g h = if h == g then px f * 512 + i else px h

-- Entry i of the table in frame f has no table yet, and frame g is clear.
pub record CanLink (root : ℕ) (lv px : ℕ → ℕ) (s : Pages) (f i g : ℕ) : Type 0 where
  pub tables : IsTables root lv px s
  pub level : 2 ≤ lv f
  pub small : i < 512
  pub absent : present s.mem f i ≡ false
  pub below : g < frames_of s
  pub clear : is_taken s g ≡ false

module _ {root : ℕ} {lv px : ℕ → ℕ} {s : Pages} {f i g : ℕ} (can : CanLink root lv px s f i g) where
  open can use {tables as t, level, small, absent, below, clear}

  abbrev pe : PageTableEntry
  pe = fresh_entry g

  abbrev m1 : Mem
  m1 = mark s g 1

  abbrev m2 : Mem
  m2 = memset m1 (g * page_size) 0 page_size

  abbrev m3 : Mem
  m3 = fresh_mem s f i g

  abbrev b : Bitmap
  b = s.page_bitmap.bitmap

  pub sized : IsSized b
  sized = omega (arith, t.small)

  pub level_zero : lv g ≡ 0
  level_zero = ground (arith, t.taken g)

  pub f_ne : f ≢ g
  f_ne e = omega (arith, ap lv e, level_zero)

  pub other_page :
      (h x : ℕ)
      → lv h ≢ 0
      → h * page_size ≤ x
      → x < h * page_size + page_size
      → (x < g * page_size) ⊎ (g * page_size + page_size ≤ x)
  other_page h x used p q = let ne : h ≢ g = λ e. used (ap lv e ∙ level_zero) in omega arith

  pub pe-IsEntry : IsEntry pe
  pe-IsEntry = omega (arith, t.small)

  -- A byte outside the map and outside page g is as before the memset.
  pub m2_frame :
      (x : ℕ)
      → (x < b.buffer) ⊎ (b.buffer + b.size ≤ x)
      → (x < g * page_size) ⊎ (g * page_size + page_size ≤ x)
      → m2 x ≡ s.mem x
  m2_frame x out out' =
      memset_frame m1 (g * page_size) 0 page_size x out'
      ∙ (get_bitmap-set_bitmap s.mem b g g 1 x sized below below out).2

  -- The map's bytes are as after the lock.
  m3_map : (x : ℕ) → b.buffer ≤ x → x < b.buffer + b.size → m3 x ≡ m1 x
  m3_map x p q =
      write_entry_frame m2 f i x pe small (omega (arith, t.apart f (omega arith)))
      ∙ memset_frame m1 (g * page_size) 0 page_size x
          (omega (arith, free-apart s g t.map_taken below clear))

  pub entry_other :
      (h j : ℕ) → lv h ≢ 0 → j < 512 → (h ≢ f) ⊎ (j ≢ i) → entry m3 h j ≡ entry s.mem h j
  entry_other h j used hj ne =
      read_entry-write_entry_ne m2 f h i j pe small hj (omega arith)
      ∙ read_entry_page m2 s.mem h j hj
          (λ x p q. m2_frame x (omega (arith, t.apart h used)) (other_page h x used p q))

  pub entry_linked : entry m3 f i ≡ pe
  entry_linked = read_entry-write_entry_self m2 (f * page_size) i pe pe-IsEntry

  pub entry_fresh : (j : ℕ) → j < 512 → present m3 g j ≡ false
  entry_fresh j hj =
      let e : entry m3 g j ≡ entry m2 g j =
        read_entry-write_entry_ne m2 f g i j pe small hj (inl f_ne) in
      ap (λ (r : PageTableEntry). truthy r.p) e ∙ ap truthy (read_entry-memset m1 g j hj)

  pub taken_after :
      (j : ℕ)
      → j < frames_of s
      → truthy (get_bitmap m3 b j) ≡ (if g == j then true else is_taken s j)
  taken_after j hj =
      ap truthy (get_bitmap_ext m3 m1 b j sized hj m3_map)
      ∙ ap truthy
          (get_bitmap-set_bitmap s.mem b g j 1 (b.buffer + b.size) sized below hj
            (inr (omega arith))).1
      ∙ if_truthy (g == j) (get_bitmap s.mem b j)

  pub marked_after : count m3 b (frames_of s) ≡ marked s + 1
  marked_after =
      count_ext m3 m1 b (frames_of s) (λ j hj. bit_of_ext m3 m1 b j hj m3_map)
      ∙ marked-set s g sized below clear
