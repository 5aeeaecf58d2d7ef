-- ===== src/Kernel/Space/Stage.antt =====
-- The steps of the set-up of paging: what each maps, takes and keeps.
use mathlib.Core.Path.{subst}
use osfort.Base.{
  ℕ, ◌+◌, ◌-◌, ◌*◌, ◌/◌, ◌%◌, ◌^◌, ◌≤◌, ◌<◌, ◌≡◌, ◌⊎◌, inl, inr, ap, ◌∙◌, some, u64, arith,
}
use osfort.Memory.{Mem}
use osfort.Bitmap.{Bitmap}
use osfort.Paging.{page_size, Pages, lock_pages}
use osfort.Paging.Account.{marked}
use osfort.Paging.Request.{frames_of}
use osfort.Paging.Table.{map_page, map_pages, map_pages_from}
use osfort.Paging.Table.Chain.{tables}
use osfort.Paging.Table.Invariant.{walk, IsTables, IsForeign}
use osfort.Paging.Table.Lock.{
  IsOffEnd, lock_pages-IsKept, kept-walk, kept-IsTables, kept-KeepsForeign,
}
use osfort.Paging.Table.Map.{page_of}
use osfort.Paging.Table.Run.{IsRange, map_pages-RunMapped}

-- A tree at `root` over a map of `frames` bits, of which at most n are set. The bytes of Out are no
-- concern of it, and are as in m0.
pub record Stage (m0 : Mem) (Out : ℕ → Type 0) (root frames n : ℕ) (s : Pages) : Type 0 where
  pub lv : ℕ → ℕ
  pub px : ℕ → ℕ
  pub is_tables : IsTables root lv px s
  pub extent : frames_of s ≡ frames
  pub used : marked s ≤ n
  pub foreign : (x : ℕ) → Out x → IsForeign lv s x
  pub same : (x : ℕ) → Out x → s.mem x ≡ m0 x

-- The tables that the pages of a run start.
unfoldable pub cost : ℕ → ℕ → ℕ
cost vir page_cnt = tables (page_of vir + page_cnt) - tables (page_of vir)

abbrev pub Sees : ℕ → Pages → ℕ → ℕ → Type 0
Sees root s w f = walk s.mem 4 root w ≡ some f

-- What a run maps, and that it leaves the other pages.
pub record IsMapped (root vir phys page_cnt : ℕ) (s s' : Pages) : Type 0 where
  pub mapped :
      (k : ℕ)
      → k < page_cnt
      → Sees root s' (page_of vir + k) ((phys + k * page_size) / page_size % 2 ^ 40)
  pub others :
      (w : ℕ)
      → w < 2 ^ 36
      → (w < page_of vir) ⊎ (page_of vir + page_cnt ≤ w)
      → walk s'.mem 4 root w ≡ walk s.mem 4 root w

module _ {m0 : Mem} {Out : ℕ → Type 0} {root frames n : ℕ} {s : Pages}
    (stage : Stage m0 Out root frames n s) where
  pub map_pages-Stage :
      (vir phys page_cnt : ℕ)
      → IsRange vir phys page_cnt
      → n + cost vir page_cnt + 6 ≤ frames
      → let s' = map_pages s (root * page_size) vir phys page_cnt in
        Stage m0 Out root frames (n + cost vir page_cnt + 3) s'
        × IsMapped root vir phys page_cnt s s'
  unfolding cost
  map_pages-Stage vir phys page_cnt range room =
      let (lv', px', run, used) =
        map_pages-RunMapped vir phys page_cnt stage.is_tables range
          (omega (arith, room, stage.used, stage.extent)) in
      let page : (k : ℕ) → k < page_cnt → page_of (vir + k * page_size) ≡ page_of vir + k =
        λ k h. omega (arith, range.pages) in
      (
        record {
          lv = lv';
          px = px';
          is_tables = run.is_tables;
          extent = ap (λ (b : Bitmap). b.size * 8) run.same_map ∙ stage.extent;
          used = omega (arith, used, stage.used);
          foreign = λ x out. run.foreign.stays x (stage.foreign x out);
          same = λ x out. run.foreign.same x (stage.foreign x out) ∙ stage.same x out;
        },
        record {
          mapped = λ k h. rw (← (page k h)) (run.mapped k (omega arith) (omega arith));
          others =
              λ w hw out. run.others w hw (λ k p q. omega (arith, page k (omega arith), q, out));
        },
      )

  pub lock_pages-Stage :
      (addr page_cnt : ℕ)
      → addr + page_cnt * page_size ≤ 2 ^ 64
      → IsOffEnd frames addr page_cnt
      → Stage m0 Out root frames (n + page_cnt) (lock_pages s addr page_cnt)
        × ((w : ℕ) → walk (lock_pages s addr page_cnt).mem 4 root w ≡ walk s.mem 4 root w)
  lock_pages-Stage addr page_cnt fits off =
      let t = stage.is_tables in
      let kept =
        lock_pages-IsKept s addr page_cnt (omega (arith, t.small)) fits
          (omega (arith, off, stage.extent)) in
      let foreign = kept-KeepsForeign t kept in
      (
        record {
          lv = stage.lv;
          px = stage.px;
          is_tables = kept-IsTables t kept;
          extent = ap (λ (b : Bitmap). b.size * 8) kept.same_map ∙ stage.extent;
          used = omega (arith, kept.grown, stage.used);
          foreign = λ x out. foreign.stays x (stage.foreign x out);
          same = λ x out. foreign.same x (stage.foreign x out) ∙ stage.same x out;
        },
        λ w. kept-walk t kept 3 root w t.root_level,
      )

-- A page is mapped to the frame of its own number, or is one of the upper half.
abbrev pub Lasting : ℕ → ℕ → Type 0
Lasting w f = (w < 2 ^ 36) × ((w ≡ f) ⊎ (2 ^ 35 ≤ w))

-- What is mapped so stays mapped.
abbrev pub Keeps : ℕ → Pages → Pages → Type 0
Keeps root s s' = (w f : ℕ) → Lasting w f → Sees root s w f → Sees root s' w f

-- The pages of [vir, vir + page_cnt * PAGE_SIZE) are mapped to their own frames.
abbrev pub Identity : ℕ → ℕ → ℕ → Pages → Type 0
Identity root vir page_cnt s =
    (w : ℕ) → vir / page_size ≤ w → w < vir / page_size + page_cnt → Sees root s w w

in-or-out :
    (w first cnt : ℕ) → ((w < first) ⊎ (first + cnt ≤ w)) ⊎ ((first ≤ w) × (w < first + cnt))
in-or-out w first cnt = ground arith

pub map_pages-Identity :
    {m0 : Mem} {Out : ℕ → Type 0} {root frames n : ℕ} {s : Pages} (vir page_cnt : ℕ)
    → Stage m0 Out root frames n s
    → vir + page_cnt * page_size ≤ 2 ^ 47
    → n + cost vir page_cnt + 6 ≤ frames
    → let s' = map_pages s (root * page_size) vir vir page_cnt in
      Stage m0 Out root frames (n + cost vir page_cnt + 3) s'
      × (Identity root vir page_cnt s' × Keeps root s s')
map_pages-Identity {root} {s = s} vir page_cnt stage low room =
    let page : page_of vir ≡ vir / page_size = omega (arith, low) in
    let (stage', run) =
      map_pages-Stage stage vir vir page_cnt
        (record {
          vir_fits = omega (arith, low);
          phys_fits = omega (arith, low);
          pages = omega (arith, low);
        })
        room in
    let s' = map_pages s (root * page_size) vir vir page_cnt in
    let own : Identity root vir page_cnt s' = λ w p q.
      let here : page_of vir + (w - vir / page_size) ≡ w = omega (arith, page, p) in
      let there : (vir + (w - vir / page_size) * page_size) / page_size % 2 ^ 40 ≡ w =
        omega (arith, p, q, low) in
      subst (λ (x : ℕ). Sees root s' x w) here
        (run.mapped (w - vir / page_size) (omega (arith, p, q)) ∙ ap some there) in
    (
      stage',
      (
        own,
        λ w f lasting sees. elim (in-or-out w (vir / page_size) page_cnt) [
          | inl out ↦ run.others w lasting.0 (omega (arith, out, page)) ∙ sees
          | inr in_run ↦
              let e : w ≡ f = omega (arith, lasting.1, in_run, low) in
              rw (← e) (own w in_run.0 in_run.1)
        ],
      ),
    )

pub map_page-Identity :
    {m0 : Mem} {Out : ℕ → Type 0} {root frames n : ℕ} {s : Pages} (vir : ℕ)
    → Stage m0 Out root frames n s
    → vir < 2 ^ 32
    → n + cost vir 1 + 6 ≤ frames
    → let s' = map_page s (root * page_size) vir vir in
      Stage m0 Out root frames (n + cost vir 1 + 3) s' × (Identity root vir 1 s' × Keeps root s s')
unfolding map_pages map_pages_from
map_page-Identity vir stage low room =
    let exact : u64 (vir + u64 (0 * page_size)) ≡ vir = omega (arith, low) in
    rw exact at (map_pages-Identity vir 1 stage (omega (arith, low)) room)
