-- ===== src/Paging/Table/Extend.antt =====
-- make_table keeps the invariant of the tables, and every walk.
use osfort.Base.{
  ℕ, zero, suc, ◌+◌, ◌-◌, ◌*◌, ◌/◌, ◌%◌, ◌^◌, ◌≤◌, ◌<◌, ◌≡◌, ◌≢◌, inl, inr, refl, ap, sym, ◌∙◌,
  true, false, none, ◌==◌, ==_iff, eq→==, ne→==, truthy, arith, Bool-cases, ltb, ltb→lt, u64, sub64,
  ◌>>>◌,
}
use osfort.Memory.{Mem}
use osfort.Sys.Str.{memset}
use osfort.Paging.{page_size, Pages, is_taken, mark, lock_page, req_page}
use osfort.Paging.Account.{marked}
use osfort.Paging.Request.{frames_of, req_page-found}
use osfort.Paging.Table.{PageTableEntry, zero_entry, write_entry, make_table, next_table}
use osfort.Paging.Table.Fresh.{
  free-apart, fresh_entry, m2_frame, fresh_mem, fresh_lv, fresh_px, CanLink, level_zero,
  entry_other, entry_linked, entry_fresh, taken_after, marked_after,
}
use osfort.Paging.Table.Entry.{read_entry-IsEntry, write_entry_frame}
use osfort.Paging.Table.Invariant.{
  entry, present, walk, digit_at, walk-absent, walk-present, walk_cong, same_place, IsTables,
  Extended, IsForeign, KeepsForeign, KeepsForeign-refl,
}

-- Locking a clear frame.
pub lock_page-clear :
    (s : Pages) (g : ℕ)
    → is_taken s g ≡ false
    → lock_page s (g * page_size) ≡ record {
      page_bitmap = record s.page_bitmap {
        free = sub64 s.page_bitmap.free page_size;
        used = u64 (s.page_bitmap.used + page_size);
      };
      mem = mark s g 1;
    }
unfolding lock_page
lock_page-clear s g clear =
    let e : g * page_size / page_size ≡ g = omega arith in rw (e, clear) refl

module _ {root : ℕ} {lv px : ℕ → ℕ} {s : Pages} {f i g : ℕ} (can : CanLink root lv px s f i g) where
  open can use {tables as t, level, small, absent, below, clear}

  abbrev m' : Mem
  m' = fresh_mem s f i g

  abbrev lv1 : ℕ → ℕ
  lv1 = fresh_lv lv f g

  abbrev px1 : ℕ → ℕ
  px1 = fresh_px px f i g

  abbrev after : Pages
  after = record {
    page_bitmap = record s.page_bitmap {
      free = sub64 s.page_bitmap.free page_size;
      used = u64 (s.page_bitmap.used + page_size);
    };
    mem = m';
  }

  lv_g : lv g ≡ 0
  lv_g = level_zero can

  -- What an entry that was there leads to has kept its level.
  lv1_old : (h : ℕ) → lv h ≢ 0 → (lv1 h ≡ lv h) × (px1 h ≡ px h)
  lv1_old h used =
      let ne : (h == g) ≡ false = ne→== h g (λ e. used (ap lv e ∙ lv_g)) in (rw ne refl, rw ne refl)

  -- The new entry leads to frame g, and g's table leads nowhere yet.
  walk_new :
      (n v : ℕ) → lv f ≡ suc (suc n) → digit_at (suc n) v ≡ i → walk m' (suc (suc n)) f v ≡ none
  walk_new n v e d =
      let p : present m' f (digit_at (suc n) v) ≡ true =
        ap (λ (x : ℕ). present m' f x) d
        ∙ ap (λ (r : PageTableEntry). truthy r.p) (entry_linked can) in
      let a : (entry m' f (digit_at (suc n) v)).addr ≡ g =
        ap (λ (x : ℕ). (entry m' f x).addr) d
        ∙ ap (λ (r : PageTableEntry). r.addr) (entry_linked can) in
      walk-present (suc n) f v m' p
      ∙ ap (λ (x : ℕ). walk m' (suc n) x v) a
      ∙ walk-absent n g v m' (entry_fresh can (digit_at n v) (omega arith))

  walks : (n h v : ℕ) → lv h ≡ suc n → walk m' (suc n) h v ≡ walk s.mem (suc n) h v
  walks zero h v e =
      walk_cong zero h v m' s.mem
        (entry_other can h (digit_at zero v) (omega arith) (omega arith)
          (inl (λ q. omega (arith, ap lv q, level))))
        (λ _. unfold walk in refl)
  walks (suc n) h v e = elim (same_place h f (digit_at (suc n) v) i) [
    | inl (q, d) ↦
        let old : present s.mem h (digit_at (suc n) v) ≡ false =
          ap (λ (x : ℕ). present s.mem x (digit_at (suc n) v)) q
          ∙ ap (λ (x : ℕ). present s.mem f x) d
          ∙ absent in
        ap (λ (x : ℕ). walk m' (suc (suc n)) x v) q
        ∙ walk_new n v (sym (ap lv q) ∙ e) d
        ∙ sym (walk-absent (suc n) h v s.mem old)
    | inr ne ↦
        walk_cong (suc n) h v m' s.mem
          (entry_other can h (digit_at (suc n) v) (omega arith) (omega arith) ne)
          (λ there.
            walks n (entry s.mem h (digit_at (suc n) v)).addr v
              (omega (arith, e, t.child h (digit_at (suc n) v) (omega arith) (omega arith) there)))
  ]

  child :
      (h j : ℕ)
      → 2 ≤ lv1 h
      → j < 512
      → present m' h j ≡ true
      → (lv1 (entry m' h j).addr ≡ lv1 h - 1) × (px1 (entry m' h j).addr ≡ px1 h * 512 + j)
  child h j deep hj there = elim (Bool-cases (h == g)) [
    | inl same ↦
        absurd
          (cc (entry_fresh can j hj, there, ap (λ (x : ℕ). present m' x j) ((==_iff h g).0 same)))
    | inr other ↦
        let lv_h : lv1 h ≡ lv h = rw other refl in
        let px_h : px1 h ≡ px h = rw other refl in
        elim (same_place h f j i) [
          | inl (q, d) ↦
              let a : (entry m' h j).addr ≡ g =
                ap (λ (x : ℕ). (entry m' x j).addr) q
                ∙ ap (λ (x : ℕ). (entry m' f x).addr) d
                ∙ ap (λ (r : PageTableEntry). r.addr) (entry_linked can) in
              let lv_a : lv1 (entry m' h j).addr ≡ lv f - 1 = rw (a, eq→== g g refl) refl in
              let px_a : px1 (entry m' h j).addr ≡ px f * 512 + i = rw (a, eq→== g g refl) refl in
              (omega (arith, lv_a, lv_h, ap lv q), omega (arith, px_a, px_h, ap px q, d))
          | inr ne ↦
              let e : entry m' h j ≡ entry s.mem h j = entry_other can h j (omega arith) hj ne in
              let a : (entry m' h j).addr ≡ (entry s.mem h j).addr =
                ap (λ (r : PageTableEntry). r.addr) e in
              let old =
                t.child h j (omega arith) hj
                  (sym (ap (λ (r : PageTableEntry). truthy r.p) e) ∙ there) in
              let up = lv1_old (entry s.mem h j).addr (omega (arith, old.0)) in
              (
                omega (arith, ap lv1 a, up.0, old.0, lv_h),
                omega (arith, ap px1 a, up.1, old.1, px_h),
              )
        ]
  ]

  after-IsTables : IsTables root lv1 px1 after
  after-IsTables = record {
    small = t.small;
    root_level = (lv1_old root (omega (arith, t.root_level))).0 ∙ t.root_level;
    root_prefix = (lv1_old root (omega (arith, t.root_level))).1 ∙ t.root_prefix;
    inside = λ h used. ground (arith, t.inside h, below);
    taken = λ h used. ground (arith, taken_after can h, t.inside h, t.taken h);
    apart = λ h used. ground (arith, t.apart h, free-apart s g t.map_taken below clear);
    map_taken = λ x p q. ground (arith, taken_after can (x / page_size), t.map_taken x p q);
    child = child;
  }

  foreign-ne : (x : ℕ) → IsForeign lv s x → (x / page_size ≢ f) × (x / page_size ≢ g)
  foreign-ne x h = (
    λ e. omega (arith, ap lv e, h.no_table, level),
    λ e. elim h.owned [
      | inl on ↦ cc (ap (is_taken s) e, on, clear)
      | inr far ↦ omega (arith, far, e, below)
    ],
  )

  foreign : KeepsForeign lv s lv1 after
  foreign = record {
    same = λ x h.
        let (not_f, not_g) = foreign-ne x h in
        write_entry_frame _ f i x (fresh_entry g) small (omega (arith, not_f))
        ∙ m2_frame can x h.apart (omega (arith, not_g));
    stays = λ x h.
        let (not_f, not_g) = foreign-ne x h in
        record {
          apart = h.apart;
          no_table = rw (ne→== _ _ not_g) h.no_table;
          owned = elim (Bool-cases (ltb (x / page_size) (frames_of s))) [
            | inl in_map ↦
                let below' : x / page_size < frames_of s = ltb→lt _ _ in_map in
                ground (arith, taken_after can (x / page_size) below', h.owned)
            | inr out_map ↦ inr (ground (arith, out_map))
          ];
        };
  }

  after-Extended : Extended root f i lv px lv1 px1 s after
  after-Extended = record {
    tables = after-IsTables;
    keeps = lv1_old;
    grown = omega (arith, marked_after can);
    same_map = refl;
    walks = walks;
    others = entry_other can;
    linked = ap (λ (r : PageTableEntry). truthy r.p) (entry_linked can);
    kept = λ there. absurd (cc (there, absent));
    foreign = foreign;
  }

  make_table-after :
      req_page s ≡ (lock_page s (g * page_size), g * page_size)
      → make_table s (f * page_size) i ≡ (after, g * page_size)
  unfolding make_table
  make_table-after e =
      ap finish e
      ∙ ap (λ (r : Pages). finish (r, g * page_size)) (lock_page-clear s g clear)
      ∙ ap (λ (a : ℕ). placed a) (omega (arith, t.small))
    where
      finish : Pages × ℕ → Pages × ℕ
      finish r = (
        record r.0 {
          mem =
              write_entry (memset r.0.mem r.1 0 page_size) (f * page_size) i
                (record zero_entry { p = 1; rw = 1; addr = (r.1 >>> 12) % 2 ^ 40 });
        },
        r.1,
      )

      placed : ℕ → Pages × ℕ
      placed a = (
        record after {
          mem =
              write_entry (memset (mark s g 1) (g * page_size) 0 page_size) (f * page_size) i
                (record zero_entry { p = 1; rw = 1; addr = a });
        },
        g * page_size,
      )

-- The step from a state to the one after it, and the table that it returns.
abbrev pub Linked : ℕ → ℕ → ℕ → (ℕ → ℕ) → (ℕ → ℕ) → Pages → Pages × ℕ → Type 0
Linked root f i lv px s r =
    (lv' : ℕ → ℕ) × (px' : ℕ → ℕ) × Extended root f i lv px lv' px' s r.0
    × (r.1 ≡ (entry r.0.mem f i).addr * page_size)

module _ {root : ℕ} {lv px : ℕ → ℕ} {s : Pages} (t : IsTables root lv px s) (f i : ℕ)
    (level : 2 ≤ lv f) (small : i < 512) where
  make_table-Linked :
      present s.mem f i ≡ false
      → marked s < frames_of s
      → Linked root f i lv px s (make_table s (f * page_size) i)
  make_table-Linked absent room =
      let (g, found, e) = req_page-found s (omega (arith, t.small)) room in
      let can : CanLink root lv px s f i g = record {
        tables = t;
        level = level;
        small = small;
        absent = absent;
        below = found.below;
        clear = found.clear;
      } in
      rw (make_table-after can e) (
        lv1 can,
        px1 can,
        after-Extended can,
        ap (λ (r : PageTableEntry). r.addr * page_size) (sym (entry_linked can)),
      )

  -- next_table under an entry that is present changes nothing, and else makes a table.
  pub next_table-Linked :
      marked s < frames_of s → Linked root f i lv px s (next_table s (f * page_size) i)
  unfolding next_table
  next_table-Linked room = elim (Bool-cases (present s.mem f i)) [
    | inl there ↦ rw there (
      lv,
      px,
      record {
        tables = t;
        keeps = λ h used. (refl, refl);
        grown = omega arith;
        same_map = refl;
        walks = λ n h v e. refl;
        others = λ h j used hj ne. refl;
        linked = there;
        kept = λ _. refl;
        foreign = KeepsForeign-refl lv s;
      },
      omega (arith, (read_entry-IsEntry s.mem (f * page_size) i).addr),
    )
    | inr absent ↦ rw absent (make_table-Linked absent room)
  ]
