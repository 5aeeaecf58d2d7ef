-- ===== src/Kernel/Memory/Marking.antt =====
-- boot/kernel/paging.c, lock_pages and reserve_pages: the frames of a run.
use osfort.Base.{
  ℕ, zero, suc, ◌+◌, ◌*◌, ◌/◌, ◌^◌, ◌≤◌, ◌<◌, ◌≡◌, ◌⊎◌, inl, inr, refl, sym, ap, ap₂, ◌∙◌, ◌==◌,
  eq→==, ==_iff, true, if◌then◌else◌, u64, Bool-cases, truthy, arith,
}
use mathlib.Core.Path.{subst}
use osfort.Memory.{Mem}
use osfort.Bitmap.{Bitmap, get_bitmap}
use osfort.Bitmap.Laws.{get_bitmap-set_bitmap, set_bitmap_frame}
use osfort.Paging.{
  page_size, Pages, is_taken, mark, lock_page, reserve_page, each_page, lock_pages, reserve_pages,
}
use osfort.Paging.Account.{IsAccounted, page_ops-IsAccounted}

-- From s to s' only bits of the map were set, and the counters kept in step.
pub record Grown (total frames : ℕ) (s s' : Pages) : Type 0 where
  pub accounted : IsAccounted total frames s'
  pub same_map : s'.page_bitmap.bitmap ≡ s.page_bitmap.bitmap
  pub frame :
      (x : ℕ)
      → (x < s.page_bitmap.bitmap.buffer)
        ⊎ (s.page_bitmap.bitmap.buffer + s.page_bitmap.bitmap.size ≤ x)
      → s'.mem x ≡ s.mem x
  pub keeps : (j : ℕ) → j < frames → is_taken s j ≡ true → is_taken s' j ≡ true

pub Grown-refl :
    {total frames : ℕ} {s : Pages} → IsAccounted total frames s → Grown total frames s s
Grown-refl acc = record {
  accounted = acc;
  same_map = refl;
  frame = λ x h. refl;
  keeps = λ j h t. t;
}

pub Grown-trans :
    {total frames : ℕ} {s s' s'' : Pages}
    → Grown total frames s s'
    → Grown total frames s' s''
    → Grown total frames s s''
Grown-trans {s = s} g g' = record {
  accounted = g'.accounted;
  same_map = g'.same_map ∙ g.same_map;
  frame = λ x h.
      g'.frame x
        (subst (λ (b : Bitmap). (x < b.buffer) ⊎ (b.buffer + b.size ≤ x)) (sym g.same_map) h)
      ∙ g.frame x h;
  keeps = λ j h t. g'.keeps j h (g.keeps j h t);
}

-- An operation that takes the frame of each page it is given.
abbrev pub Takes : ℕ → ℕ → (Pages → ℕ → Pages) → Type 0
Takes total frames op =
    (s : Pages) (addr : ℕ)
    → addr / page_size < frames
    → IsAccounted total frames s
    → Grown total frames s (op s addr) × (is_taken (op s addr) (addr / page_size) ≡ true)

-- What setting the bit of a frame does.
module _ {total frames : ℕ} (s : Pages) (i : ℕ) (h : i < frames)
    (acc : IsAccounted total frames s) where
  mark_frame :
      (x : ℕ)
      → (x < s.page_bitmap.bitmap.buffer)
        ⊎ (s.page_bitmap.bitmap.buffer + s.page_bitmap.bitmap.size ≤ x)
      → mark s i 1 x ≡ s.mem x
  mark_frame x out =
      set_bitmap_frame s.mem s.page_bitmap.bitmap i 1 x (λ e. omega (arith, acc.extent, e))

  marked_bit :
      (j : ℕ)
      → j < frames
      → truthy (get_bitmap (mark s i 1) s.page_bitmap.bitmap j)
        ≡ (if i == j then true else is_taken s j)
  marked_bit j hj =
      let b = s.page_bitmap.bitmap in
      let e =
        (get_bitmap-set_bitmap s.mem b i j 1 (b.buffer + b.size) acc.sized
          (omega (arith, acc.extent)) (omega (arith, acc.extent)) (inr (omega arith))).1 in
      ground (arith, e)

  -- A state with that memory and the same map.
  taking :
      (s' : Pages)
      → IsAccounted total frames s'
      → s'.page_bitmap.bitmap ≡ s.page_bitmap.bitmap
      → s'.mem ≡ mark s i 1
      → Grown total frames s s' × (is_taken s' i ≡ true)
  taking s' acc' same e =
      let taken : (j : ℕ) → j < frames → is_taken s' j ≡ (if i == j then true else is_taken s j) =
        λ j hj.
          ap₂ (λ (m : Mem) (b : Bitmap). truthy (get_bitmap m b j)) e same ∙ marked_bit j hj in
      (
        record {
          accounted = acc';
          same_map = same;
          frame = λ x out. ap (λ (m : Mem). m x) e ∙ mark_frame x out;
          keeps = λ j hj t. taken j hj ∙ ground (arith, t);
        },
        taken i h ∙ rw (eq→== i i refl) refl,
      )

lock_page-Takes : (total frames : ℕ) → Takes total frames lock_page
unfolding lock_page
lock_page-Takes total frames s addr h acc =
    let acc' = (page_ops-IsAccounted addr h acc).1 in
    elim (Bool-cases (is_taken s (addr / page_size))) [
      | inl on ↦ rw on (Grown-refl acc, on)
      | inr off ↦
          taking s (addr / page_size) h acc (lock_page s addr) acc' (rw off refl) (rw off refl)
    ]

reserve_page-Takes : (total frames : ℕ) → Takes total frames reserve_page
unfolding reserve_page
reserve_page-Takes total frames s addr h acc =
    let acc' = (page_ops-IsAccounted addr h acc).3 in
    elim (Bool-cases (is_taken s (addr / page_size))) [
      | inl on ↦ rw on (Grown-refl acc, on)
      | inr off ↦
          taking s (addr / page_size) h acc (reserve_page s addr) acc' (rw off refl) (rw off refl)
    ]

-- A run of pages inside the map, from round i on: all their frames are taken afterwards.
module _ {total frames : ℕ} (op : Pages → ℕ → Pages) (takes : Takes total frames op)
    (whole : frames * page_size ≤ 2 ^ 64) where
  each_page-Grown :
      (k i : ℕ) (s : Pages) (addr : ℕ)
      → addr + (i + k) * page_size ≤ frames * page_size
      → IsAccounted total frames s
      → Grown total frames s (each_page op k i s addr)
        × ((j : ℕ)
            → addr / page_size + i ≤ j
            → j < addr / page_size + i + k
            → is_taken (each_page op k i s addr) j ≡ true)
  unfolding each_page
  each_page-Grown zero i s addr h acc = (Grown-refl acc, λ j p q. absurd (omega arith))
  each_page-Grown (suc k) i s addr h acc =
      let a = u64 (addr + u64 (i * page_size)) in
      let here : a / page_size ≡ addr / page_size + i = omega arith in
      let (grown, taken) = takes s a (omega arith) acc in
      let (rest, later) = each_page-Grown k (i + 1) (op s a) addr (omega arith) grown.accounted in
      (
        Grown-trans grown rest,
        λ j p q. elim (Bool-cases (a / page_size == j)) [
          | inl e ↦
              rest.keeps j (omega arith) (ap (is_taken (op s a)) (sym ((==_iff _ _).0 e)) ∙ taken)
          | inr ne ↦ later j (ground (arith, here)) (omega arith)
        ],
      )

-- The frames of the run.
abbrev pub Run : ℕ → ℕ → ℕ → Type 0
Run addr page_cnt j = (addr / page_size ≤ j) × (j < addr / page_size + page_cnt)

module _ {total frames : ℕ} {s : Pages} (addr page_cnt : ℕ) (whole : frames * page_size ≤ 2 ^ 64)
    (inside : addr + page_cnt * page_size ≤ frames * page_size)
    (acc : IsAccounted total frames s) where
  pub lock_pages-Grown :
      Grown total frames s (lock_pages s addr page_cnt)
      × ((j : ℕ) → Run addr page_cnt j → is_taken (lock_pages s addr page_cnt) j ≡ true)
  unfolding lock_pages
  lock_pages-Grown =
      let (grown, taken) =
        each_page-Grown lock_page (lock_page-Takes total frames) whole page_cnt 0 s addr
          (omega arith) acc in
      (grown, λ j r. taken j (omega arith) (omega arith))

  pub reserve_pages-Grown :
      Grown total frames s (reserve_pages s addr page_cnt)
      × ((j : ℕ) → Run addr page_cnt j → is_taken (reserve_pages s addr page_cnt) j ≡ true)
  unfolding reserve_pages
  reserve_pages-Grown =
      let (grown, taken) =
        each_page-Grown reserve_page (reserve_page-Takes total frames) whole page_cnt 0 s addr
          (omega arith) acc in
      (grown, λ j r. taken j (omega arith) (omega arith))
