-- ===== src/Paging/Table/Map.antt =====
-- map_page: afterwards the processor finds the frame at the page, and every other page is as it was.
use osfort.Base.{
  ℕ, ◌+◌, ◌*◌, ◌/◌, ◌%◌, ◌^◌, ◌≤◌, ◌<◌, ◌≡◌, ◌≢◌, inl, refl, ap, ◌∙◌, true, some, truthy, arith,
}
use osfort.Base.Bits.{bit_and-mask}
use osfort.Paging.{page_size, Pages}
use osfort.Paging.Account.{marked}
use osfort.Paging.Request.{frames_of}
use osfort.Paging.Table.{PageTableEntry, set_page, index_at, map_page}
use osfort.Paging.Table.Invariant.{
  present, walk, digit_at, walk-present, IsTables, Chain, KeepsForeign, KeepsForeign-trans,
}
use osfort.Paging.Table.Place
use osfort.Paging.Table.Ensure.{ensure, Ensured, ensure-Descent}

-- The page number of a virtual address, of 36 bits.
abbrev pub page_of : ℕ → ℕ
page_of vir_addr = vir_addr / page_size % 2 ^ 36

-- The four indices that the code computes are the digits of the page number.
pub index_at_3 : (v : ℕ) → index_at v 39 ≡ digit_at 3 (page_of v)
index_at_3 v = omega (arith, bit_and-mask 9 (v / 2 ^ 39))

pub index_at_2 : (v : ℕ) → index_at v 30 ≡ digit_at 2 (page_of v)
index_at_2 v = omega (arith, bit_and-mask 9 (v / 2 ^ 30))

pub index_at_1 : (v : ℕ) → index_at v 21 ≡ digit_at 1 (page_of v)
index_at_1 v = omega (arith, bit_and-mask 9 (v / 2 ^ 21))

pub index_at_0 : (v : ℕ) → index_at v 12 ≡ digit_at 0 (page_of v)
index_at_0 v = omega (arith, bit_and-mask 9 (v / 2 ^ 12))

map_page-ensure :
    (s : Pages) (pml4 vir phys : ℕ)
    → map_page s pml4 vir phys
      ≡ set_page
          (ensure 3 s pml4 (page_of vir)).0
          (ensure 3 s pml4 (page_of vir)).1
          (digit_at 0 (page_of vir))
          phys
unfolding map_page ensure
map_page-ensure s pml4 vir phys =
    rw (index_at_3 vir, index_at_2 vir, index_at_1 vir, index_at_0 vir) refl

-- What map_page leaves behind in s', from s.
abbrev pub Mapped : ℕ → (ℕ → ℕ) → ℕ → ℕ → Pages → Pages → Type 0
Mapped root lv vir phys s s' =
    (lv' : ℕ → ℕ) × (px' : ℕ → ℕ) × IsTables root lv' px' s'
    × (walk s'.mem 4 root (page_of vir) ≡ some (phys / page_size % 2 ^ 40))
    × ((w : ℕ) → w < 2 ^ 36 → w ≢ page_of vir → walk s'.mem 4 root w ≡ walk s.mem 4 root w)
    × ((d : ℕ) → Chain s.mem 3 root (page_of vir) d → marked s' + d ≤ marked s + 3)
    × (s'.page_bitmap.bitmap ≡ s.page_bitmap.bitmap)
    × KeepsForeign lv s lv' s'

set_page-Mapped :
    {root : ℕ} {lv : ℕ → ℕ} {s : Pages} {r : Pages × ℕ} {lv' px' : ℕ → ℕ} {pt : ℕ} (vir phys : ℕ)
    → lv root ≡ 4
    → Ensured root 3 root (page_of vir) lv s r lv' px' pt
    → Mapped root lv vir phys s (set_page r.0 r.1 (digit_at 0 (page_of vir)) phys)
unfolding set_page
set_page-Mapped {root} {lv} {r = r} {lv'} {px'} {pt} vir phys level e =
    let v = page_of vir in
    let i = digit_at 0 v in
    let small : i < 512 = omega arith in
    let m = Place.m' e.tables pt i phys e.leaf small in
    let here = Place.entry_set e.tables pt i phys e.leaf small in
    let there : present m pt i ≡ true = ap (λ (x : PageTableEntry). truthy x.p) here in
    let down : walk m 4 root v ≡ walk m 1 pt v = e.path m (λ h j deep hj.
      Place.entry_other e.tables pt i phys e.leaf small h j hj
        (inl (λ q. omega (arith, ap lv' q, e.leaf)))) in
    rw e.found (
      lv',
      px',
      Place.placed-IsTables e.tables pt i phys e.leaf small,
      down
          ∙ walk-present 0 pt v m there
          ∙ ap (λ (x : PageTableEntry). walk m 0 x.addr v) here
          ∙ unfold walk in refl,
      λ w hw ne.
          Place.walks e.tables pt i phys e.leaf small 3 root w e.tables.root_level
            (e.tables.root_prefix ∙ omega arith) (λ q. ne (q ∙ omega (arith, e.prefix)))
          ∙ e.walks 3 root w level,
      λ d chain. omega (arith, Place.marked-same e.tables pt i phys e.leaf small, e.grown d chain),
      e.same_map,
      KeepsForeign-trans e.foreign (Place.placed-KeepsForeign e.tables pt i phys e.leaf small),
    )

-- For a tree of page tables with room for three more frames, map_page keeps the tree's invariant; the
-- walk of the mapped page gives the frame of phys_addr, the walk of every other page is unchanged, and
-- of the same map at most one frame is taken for each of the three tables that was missing. No byte
-- changes that is neither the map's nor a table's and whose frame was taken or lies outside the map.
pub map_page-walk :
    {root : ℕ} {lv px : ℕ → ℕ} {s : Pages} (vir phys : ℕ)
    → IsTables root lv px s
    → marked s + 3 ≤ frames_of s
    → Mapped root lv vir phys s (map_page s (root * page_size) vir phys)
map_page-walk {root} {lv} {px} {s} vir phys t room =
    let (lv', px', pt, e) =
      ensure-Descent 3 root (page_of vir) t t.root_level (t.root_prefix ∙ omega arith) room in
    rw (map_page-ensure s (root * page_size) vir phys) (set_page-Mapped vir phys t.root_level e)
