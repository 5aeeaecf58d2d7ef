-- ===== src/Paging/Table/Root.antt =====
-- boot/kernel/kernel.c 72 to 73: a fresh frame, cleared, as an empty root table.
use mathlib.Core.Path.{subst}
use osfort.Base.{
  ℕ, ◌+◌, ◌*◌, ◌/◌, ◌^◌, ◌≤◌, ◌<◌, ◌≡◌, ◌≢◌, inl, inr, refl, sym, ap, ◌∙◌, true, false, ◌==◌, eq→==,
  ne→==, ltb, ltb→lt, truthy, if◌then◌else◌, u64, sub64, Bool-cases, arith,
}
use osfort.Memory.{Mem}
use osfort.Sys.Str.{memset}
use osfort.Sys.Str.Laws.{memset_frame}
use osfort.Bitmap.{Bitmap, get_bitmap}
use osfort.Bitmap.Laws.{get_bitmap-set_bitmap, set_bitmap_frame, bit_of_ext, get_bitmap_ext}
use osfort.Paging.{page_size, Pages, is_taken, mark, req_page}
use osfort.Paging.Count.{count, count_ext}
use osfort.Paging.Account.{marked, marked-set}
use osfort.Paging.Request.{frames_of, req_page-found}
use osfort.Paging.Table.Entry.{read_entry-memset}
use osfort.Paging.Table.Extend.{lock_page-clear}
use osfort.Paging.Table.Fresh.{MapTaken, free-apart, if_truthy}
use osfort.Paging.Table.Invariant.{present, IsTables, IsForeign, KeepsForeign}

abbrev pub cleared : Pages × ℕ → Pages × ℕ
cleared (s, page) = (record s { mem = memset s.mem page 0 page_size }, page)

abbrev pub root_lv : ℕ → ℕ → ℕ
root_lv g h = if h == g then 4 else 0

-- A tree of one table, in a frame that was free.
abbrev pub IsRooted : Pages → Pages × ℕ → Type 0
IsRooted s r =
    (g : ℕ) × (r.1 ≡ g * page_size)
    × IsTables g (root_lv g) (λ _. 0) r.0
    × (r.0.page_bitmap.bitmap ≡ s.page_bitmap.bitmap)
    × (marked r.0 ≤ marked s + 1)
    × KeepsForeign (λ _. 0) s (root_lv g) r.0

module _ (s : Pages) (g : ℕ) (small : frames_of s ≤ 2 ^ 28) (map_taken : MapTaken s)
    (below : g < frames_of s) (clear : is_taken s g ≡ false) where
  abbrev m1 : Mem
  m1 = mark s g 1

  abbrev m2 : Mem
  m2 = memset m1 (g * page_size) 0 page_size

  abbrev b : Bitmap
  b = s.page_bitmap.bitmap

  abbrev after : Pages
  after = record {
    page_bitmap = record s.page_bitmap {
      free = sub64 s.page_bitmap.free page_size;
      used = u64 (s.page_bitmap.used + page_size);
    };
    mem = m2;
  }

  map_same : (x : ℕ) → b.buffer ≤ x → x < b.buffer + b.size → m2 x ≡ m1 x
  map_same x p q =
      memset_frame m1 (g * page_size) 0 page_size x
        (omega (arith, free-apart s g map_taken below clear))

  taken_after :
      (j : ℕ)
      → j < frames_of s
      → truthy (get_bitmap m2 b j) ≡ (if g == j then true else is_taken s j)
  taken_after j hj =
      ap truthy (get_bitmap_ext m2 m1 b j (omega (arith, small)) hj map_same)
      ∙ ap truthy
          (get_bitmap-set_bitmap s.mem b g j 1 (b.buffer + b.size) (omega (arith, small)) below hj
            (inr (omega arith))).1
      ∙ if_truthy (g == j) (get_bitmap s.mem b j)

  marked_after : count m2 b (frames_of s) ≡ marked s + 1
  marked_after =
      count_ext m2 m1 b (frames_of s) (λ j hj. bit_of_ext m2 m1 b j hj map_same)
      ∙ marked-set s g (omega (arith, small)) below clear

  is_root : (h : ℕ) → root_lv g h ≢ 0 → g ≡ h
  is_root h used = ground arith

  other_page : (x : ℕ) → IsForeign (λ _. 0) s x → x / page_size ≢ g
  other_page x h e = elim h.owned [
    | inl on ↦ cc (ap (is_taken s) e, on, clear)
    | inr far ↦ omega (arith, far, e, below)
  ]

  after-KeepsForeign : KeepsForeign (λ _. 0) s (root_lv g) after
  after-KeepsForeign = record {
    same = λ x h.
        let not_g = other_page x h in
        memset_frame m1 (g * page_size) 0 page_size x (omega (arith, not_g))
        ∙ set_bitmap_frame s.mem b g 1 x (omega (arith, h.apart, below));
    stays = λ x h.
        let not_g = other_page x h in
        record {
          apart = h.apart;
          no_table = rw (ne→== _ _ not_g) refl;
          owned = elim (Bool-cases (ltb (x / page_size) (frames_of s))) [
            | inl in_map ↦
                let below' : x / page_size < frames_of s = ltb→lt _ _ in_map in
                ground (arith, taken_after (x / page_size) below', h.owned)
            | inr out_map ↦ inr (ground (arith, out_map))
          ];
        };
  }

  after-IsTables : IsTables g (root_lv g) (λ _. 0) after
  after-IsTables = record {
    small = small;
    root_level = rw (eq→== g g refl) refl;
    root_prefix = refl;
    inside = λ f used. omega (arith, is_root f used, below);
    taken = λ f used. let e = is_root f used in ground (arith, taken_after f, e, below);
    apart = λ f used. omega (arith, is_root f used, free-apart s g map_taken below clear);
    map_taken = λ x p q. ground (arith, taken_after (x / page_size), map_taken x p q);
    child = λ f i deep hi there.
        let e = is_root f (omega arith) in
        let empty : present m2 g i ≡ false = ap truthy (read_entry-memset m1 g i hi) in
        absurd (cc (empty, there, e));
  }

-- Where the map covers at most 2 ^ 28 frames, has one that is free, and marks the frames of its own
-- bytes.
pub req_page-IsRooted :
    (s : Pages)
    → frames_of s ≤ 2 ^ 28
    → MapTaken s
    → marked s < frames_of s
    → IsRooted s (cleared (req_page s))
req_page-IsRooted s small map_taken room =
    let (g, found, e) = req_page-found s (omega (arith, small)) room in
    let done : cleared (req_page s)
        ≡ (after s g small map_taken found.below found.clear, g * page_size) =
      ap cleared e
      ∙ ap (λ (r : Pages). cleared (r, g * page_size)) (lock_page-clear s g found.clear) in
    subst (IsRooted s) (sym done) (
      g,
      refl,
      after-IsTables s g small map_taken found.below found.clear,
      refl,
      omega (arith, marked_after s g small map_taken found.below found.clear),
      after-KeepsForeign s g small map_taken found.below found.clear,
    )
