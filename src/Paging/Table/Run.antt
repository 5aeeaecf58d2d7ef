-- ===== src/Paging/Table/Run.antt =====
-- boot/kernel/paging.c, map_pages.
use osfort.Base.{
  ℕ, zero, suc, ◌+◌, ◌*◌, ◌/◌, ◌%◌, ◌^◌, ◌≤◌, ◌<◌, ◌≡◌, ◌≢◌, inl, inr, refl, ap, sym, ◌∙◌, some,
  u64, arith,
}
use mathlib.Core.Path.{subst}
use osfort.Base.Arith.{eq-or-later}
use osfort.Bitmap.{Bitmap}
use osfort.Paging.{page_size, Pages}
use osfort.Paging.Account.{marked}
use osfort.Paging.Request.{frames_of}
use osfort.Paging.Table.{map_page, map_pages_from, map_pages}
use osfort.Paging.Table.Invariant.{
  walk, IsTables, Chain, Chain-zero, KeepsForeign, KeepsForeign-refl, KeepsForeign-trans,
}
use osfort.Paging.Table.Chain.{tables, walk-Chain, Chain-next}
use osfort.Paging.Table.Map.{page_of, map_page-walk}

-- Pages [i, i + k) of the run are mapped in s', and every other page is as in s.
pub record IsRun (root vir phys i k : ℕ) (lv : ℕ → ℕ) (s s' : Pages) (lv' px' : ℕ → ℕ)
    : Type 0 where
  pub is_tables : IsTables root lv' px' s'
  pub mapped :
      (n : ℕ)
      → i ≤ n
      → n < i + k
      → walk s'.mem 4 root (page_of (vir + n * page_size))
        ≡ some ((phys + n * page_size) / page_size % 2 ^ 40)
  pub others :
      (w : ℕ)
      → w < 2 ^ 36
      → ((n : ℕ) → i ≤ n → n < i + k → w ≢ page_of (vir + n * page_size))
      → walk s'.mem 4 root w ≡ walk s.mem 4 root w
  pub same_map : s'.page_bitmap.bitmap ≡ s.page_bitmap.bitmap
  pub foreign : KeepsForeign lv s lv' s'

-- With that, the frames marked in s' and `low` are at most those marked in s and `high`.
abbrev pub RunMapped : ℕ → ℕ → ℕ → ℕ → ℕ → ℕ → ℕ → (ℕ → ℕ) → Pages → Pages → Type 0
RunMapped low high root vir phys i k lv s s' =
    (lv' : ℕ → ℕ) × (px' : ℕ → ℕ) × IsRun root vir phys i k lv s s' lv' px'
    × (marked s' + low ≤ marked s + high)

-- Both ends of a run lie below 2 ^ 64, and its pages do not wrap in the page numbers.
pub record IsRange (vir phys page_cnt : ℕ) : Type 0 where
  pub vir_fits : vir + page_cnt * page_size ≤ 2 ^ 64
  pub phys_fits : phys + page_cnt * page_size ≤ 2 ^ 64
  pub pages : page_of vir + page_cnt ≤ 2 ^ 36

-- One page, and the run behind it.
IsRun-suc :
    (k i : ℕ) {root vir phys : ℕ} {s s1 s' : Pages} {lv lv1 px1 lv' px' : ℕ → ℕ}
    → page_of vir + (i + suc k) ≤ 2 ^ 36
    → IsRun root vir phys i 1 lv s s1 lv1 px1
    → IsRun root vir phys (i + 1) k lv1 s1 s' lv' px'
    → IsRun root vir phys i (suc k) lv s s' lv' px'
IsRun-suc k i {vir = vir} few first rest = record {
  is_tables = rest.is_tables;
  mapped = λ n p q. elim (eq-or-later i n p) [
    | inl here ↦ rw (← here) (
        rest.others (page_of (vir + i * page_size)) (omega arith)
          (λ j p' q'. omega (arith, few, p', q'))
        ∙ first.mapped i (omega arith) (omega arith))
    | inr p' ↦ rest.mapped n p' (omega arith)
  ];
  others = λ w hw other.
      rest.others w hw (λ n p q. other n (omega arith) (omega arith))
      ∙ first.others w hw (λ n p q. other n p (omega arith));
  same_map = rest.same_map ∙ first.same_map;
  foreign = KeepsForeign-trans first.foreign rest.foreign;
}

-- What map_page does is a run of one page.
map_page-IsRun :
    {root : ℕ} {lv px : ℕ → ℕ} {s : Pages} (vir phys i k : ℕ)
    → IsTables root lv px s
    → i < k
    → IsRange vir phys k
    → marked s + 3 ≤ frames_of s
    → let s1 =
        map_page s
          (root * page_size)
          (u64 (vir + u64 (i * page_size)))
          (u64 (phys + u64 (i * page_size))) in
      (lv' : ℕ → ℕ) × (px' : ℕ → ℕ) × IsRun root vir phys i 1 lv s s1 lv' px'
      × ((d : ℕ) → Chain s.mem 3 root (page_of vir + i) d → marked s1 + d ≤ marked s + 3)
map_page-IsRun {root} {s = s} vir phys i k t small range room =
    let exact : u64 (vir + u64 (i * page_size)) ≡ vir + i * page_size =
      omega (arith, range.vir_fits) in
    let exact' : u64 (phys + u64 (i * page_size)) ≡ phys + i * page_size =
      omega (arith, range.phys_fits) in
    let page : page_of (vir + i * page_size) ≡ page_of vir + i = omega (arith, range.pages) in
    let (lv1, px1, t1, mapped, others, grown, same, foreign) =
      map_page-walk (vir + i * page_size) (phys + i * page_size) t room in
    rw (exact, exact')
      (
        lv1,
        px1,
        record {
          is_tables = t1;
          mapped = λ n p q. let here : i ≡ n = omega (arith, p, q) in rw (← here) mapped;
          others = λ w hw other. others w hw (other i (omega arith) (omega arith));
          same_map = same;
          foreign = foreign;
        },
        λ d chain. grown d (rw page chain),
      )

-- All tables of the page are there afterwards.
IsRun-Chain :
    {root vir phys i v : ℕ} {s s1 : Pages} {lv lv1 px1 : ℕ → ℕ}
    → IsRun root vir phys i 1 lv s s1 lv1 px1
    → page_of (vir + i * page_size) ≡ v
    → Chain s1.mem 3 root v 3
IsRun-Chain {root} {vir} {i = i} {s1 = s1} first page =
    subst (λ (w : ℕ). Chain s1.mem 3 root w 3) page
      (walk-Chain 3 root (page_of (vir + i * page_size)) _ s1.mem
        (first.mapped i (omega arith) (omega arith)))

-- The loop, behind the page v.
map_pages_from-RunMapped :
    (k i v : ℕ) {root : ℕ} {lv px : ℕ → ℕ} {s : Pages} (vir phys : ℕ)
    → IsTables root lv px s
    → IsRange vir phys (i + k)
    → page_of vir + i ≡ v + 1
    → Chain s.mem 3 root v 3
    → marked s + tables (v + k) + 3 ≤ frames_of s + tables v
    → RunMapped
        (tables v)
        (tables (v + k))
        root
        vir
        phys
        i
        k
        lv
        s
        (map_pages_from k i s (root * page_size) vir phys)
unfolding map_pages_from
map_pages_from-RunMapped zero i v {lv = lv} {px} {s} vir phys t range at chain room = (
  lv,
  px,
  record {
    is_tables = t;
    mapped = λ n p q. absurd (omega arith);
    others = λ w hw other. refl;
    same_map = refl;
    foreign = KeepsForeign-refl lv s;
  },
  omega arith,
)
map_pages_from-RunMapped (suc k) i v {root} {s = s} vir phys t range at chain room =
    let (lv1, px1, first, grown) =
      map_page-IsRun vir phys i (i + suc k) t (omega arith) range (omega arith) in
    let (d, (near, cost)) = Chain-next root v s.mem chain in
    let taken = grown d (subst (λ (w : ℕ). Chain s.mem 3 root w d) (sym at) near) in
    let page : page_of (vir + i * page_size) ≡ v + 1 = omega (arith, range.pages, at) in
    let chain1 = IsRun-Chain first page in
    let frames = ap (λ (b : Bitmap). b.size * 8) first.same_map in
    let (lv', px', rest, used) =
      map_pages_from-RunMapped k (i + 1) (v + 1) vir phys first.is_tables
        (record {
          vir_fits = omega (arith, range.vir_fits);
          phys_fits = omega (arith, range.phys_fits);
          pages = omega (arith, range.pages);
        })
        (omega (arith, at)) chain1 (omega (arith, taken, cost, frames, room)) in
    (lv', px', IsRun-suc k i range.pages first rest, omega (arith, taken, cost, used))

-- For a tree of page tables and a run whose ends lie below 2 ^ 64, where the map has room for six
-- frames and for the tables that the run's pages start: after map_pages the tree keeps its invariant,
-- the walk of page n of the run gives the frame of phys_addr + n * PAGE_SIZE for each n below page_cnt,
-- the walk of every page outside the run is unchanged, and at most three frames and one for each
-- table that the run's pages start are taken from the same map. No byte changes that is neither the
-- map's nor a table's and whose frame was taken or lies outside the map.
pub map_pages-RunMapped :
    {root : ℕ} {lv px : ℕ → ℕ} {s : Pages} (vir phys page_cnt : ℕ)
    → IsTables root lv px s
    → IsRange vir phys page_cnt
    → marked s + tables (page_of vir + page_cnt) + 6 ≤ frames_of s + tables (page_of vir)
    → RunMapped
        (tables (page_of vir))
        (tables (page_of vir + page_cnt) + 3)
        root
        vir
        phys
        0
        page_cnt
        lv
        s
        (map_pages s (root * page_size) vir phys page_cnt)
unfolding map_pages map_pages_from
map_pages-RunMapped {lv = lv} {px} {s} vir phys zero t range room = (
  lv,
  px,
  record {
    is_tables = t;
    mapped = λ n p q. absurd (omega arith);
    others = λ w hw other. refl;
    same_map = refl;
    foreign = KeepsForeign-refl lv s;
  },
  omega arith,
)
map_pages-RunMapped {root} {s = s} vir phys (suc k) t range room =
    let v = page_of vir in
    let (lv1, px1, first, grown) =
      map_page-IsRun vir phys 0 (suc k) t (omega arith) range (omega (arith, room)) in
    let taken = grown 0 (Chain-zero s.mem 3 root (v + 0)) in
    let page : page_of (vir + 0 * page_size) ≡ v = omega arith in
    let chain1 = IsRun-Chain first page in
    let frames = ap (λ (b : Bitmap). b.size * 8) first.same_map in
    let (lv', px', rest, used) =
      map_pages_from-RunMapped k 1 v vir phys first.is_tables
        (record {
          vir_fits = omega (arith, range.vir_fits);
          phys_fits = omega (arith, range.phys_fits);
          pages = omega (arith, range.pages);
        })
        (omega arith) chain1 (omega (arith, taken, frames, room)) in
    (lv', px', IsRun-suc k 0 (omega (arith, range.pages)) first rest, omega (arith, taken, used))
