-- ===== src/Paging/Table/Place.antt =====
-- set_page: the last level of map_page writes one entry, and no other walk changes.
use native.Mathlib.Nat.{pow-suc, div-div-eq-div-mul}
use osfort.Base.{
  ℕ, zero, suc, ◌+◌, ◌*◌, ◌/◌, ◌%◌, ◌^◌, ◌≤◌, ◌<◌, ◌≡◌, ◌≢◌, ◌⊎◌, inl, inr, refl, ap, sym, ◌∙◌,
  truthy, arith, Bool-cases, ltb, ltb→lt, ◌>>>◌,
}
use osfort.Memory.{Mem}
use osfort.Bitmap.Laws.{bit_of_ext, get_bitmap_ext}
use osfort.Paging.Count.{count, count_ext}
use osfort.Paging.Account.{marked}
use osfort.Paging.{page_size, Pages, is_taken}
use osfort.Paging.Request.{frames_of}
use osfort.Paging.Table.{PageTableEntry, write_entry}
use osfort.Paging.Table.Entry.{
  IsEntry, read_entry-IsEntry, write_entry_frame, read_entry-write_entry_self,
  read_entry-write_entry_ne,
}
use osfort.Paging.Table.Invariant.{
  entry, walk, digit_at, walk_cong, same_place, IsTables, IsForeign, KeepsForeign,
}

-- The digits of v above the last n + 1, and one more.
pub digit_prefix :
    (n v p : ℕ) → p ≡ v / 512 ^ suc (suc n) → p * 512 + digit_at (suc n) v ≡ v / 512 ^ suc n
digit_prefix n v p e =
    omega
      (arith, ap (λ (t : ℕ). v / t) (pow-suc 512 (suc n)), div-div-eq-div-mul v (512 ^ suc n) 512)

module _ {root : ℕ} {lv px : ℕ → ℕ} {s : Pages} (t : IsTables root lv px s) (f i phys : ℕ)
    (leaf : lv f ≡ 1) (small : i < 512) where
  abbrev pub pe : PageTableEntry
  pe = record (entry s.mem f i) { p = 1; rw = 1; addr = (phys >>> 12) % 2 ^ 40 }

  abbrev pub m' : Mem
  m' = write_entry s.mem (f * page_size) i pe

  pe-IsEntry : IsEntry pe
  pe-IsEntry =
      let e = read_entry-IsEntry s.mem (f * page_size) i in
      omega (arith, e.us, e.pwt, e.pcd, e.a, e.avl0, e.ps, e.avl1, e.avl2, e.xd)

  pub entry_other : (h j : ℕ) → j < 512 → (h ≢ f) ⊎ (j ≢ i) → entry m' h j ≡ entry s.mem h j
  entry_other h j hj ne = read_entry-write_entry_ne s.mem f h i j pe small hj (omega arith)

  pub entry_set : entry m' f i ≡ pe
  entry_set = read_entry-write_entry_self s.mem (f * page_size) i pe pe-IsEntry

  map_same :
      (x : ℕ)
      → s.page_bitmap.bitmap.buffer ≤ x
      → x < s.page_bitmap.bitmap.buffer + s.page_bitmap.bitmap.size
      → m' x ≡ s.mem x
  map_same x p q = write_entry_frame s.mem f i x pe small (omega (arith, t.apart f (omega arith)))

  -- The table lies apart from the allocator's map.
  pub marked-same : count m' s.page_bitmap.bitmap (frames_of s) ≡ marked s
  marked-same =
      count_ext m' s.mem s.page_bitmap.bitmap (frames_of s)
        (λ j hj. bit_of_ext m' s.mem s.page_bitmap.bitmap j hj map_same)

  -- The walk of v from a table on its path sees the new entry exactly where its last two steps are f and i.
  pub walks :
      (n h v : ℕ)
      → lv h ≡ suc n
      → px h ≡ v / 512 ^ suc n
      → v ≢ px f * 512 + i
      → walk m' (suc n) h v ≡ walk s.mem (suc n) h v
  walks zero h v e pre other =
      walk_cong zero h v m' s.mem
        (entry_other h (digit_at zero v) (omega arith)
          (elsewhere (same_place h f (digit_at zero v) i)))
        (λ _. unfold walk in refl)
    where
      elsewhere :
          ((h ≡ f) × (digit_at zero v ≡ i)) ⊎ ((h ≢ f) ⊎ (digit_at zero v ≢ i))
          → (h ≢ f) ⊎ (digit_at zero v ≢ i)
      elsewhere (inl (q, d)) = absurd (other (omega (arith, d, pre, ap px q)))
      elsewhere (inr ne) = ne
  walks (suc n) h v e pre other =
      walk_cong (suc n) h v m' s.mem
        (entry_other h (digit_at (suc n) v) (omega arith) (inl (λ q. omega (arith, ap lv q))))
        (λ there.
          let down = t.child h (digit_at (suc n) v) (omega arith) (omega arith) there in
          walks n (entry s.mem h (digit_at (suc n) v)).addr v (omega (arith, down.0, e))
            (down.1 ∙ digit_prefix n v (px h) pre) other)

  abbrev pub placed : Pages
  placed = record s { mem = m' }

  taken_same : (j : ℕ) → j < frames_of s → is_taken placed j ≡ is_taken s j
  taken_same j hj =
      ap truthy
        (get_bitmap_ext m' s.mem s.page_bitmap.bitmap j (omega (arith, t.small)) hj map_same)

  pub placed-IsTables : IsTables root lv px placed
  placed-IsTables = record {
    small = t.small;
    root_level = t.root_level;
    root_prefix = t.root_prefix;
    inside = t.inside;
    taken = λ h used. taken_same h (t.inside h used) ∙ t.taken h used;
    apart = t.apart;
    map_taken =
        λ x p q. let (lt, on) = t.map_taken x p q in (lt, taken_same (x / page_size) lt ∙ on);
    child = λ h j deep hj there.
        let e : entry m' h j ≡ entry s.mem h j =
          entry_other h j hj (inl (λ q. omega (arith, ap lv q, leaf, deep))) in
        let old = t.child h j deep hj (sym (ap (λ (r : PageTableEntry). truthy r.p) e) ∙ there) in
        (
          ap (λ (r : PageTableEntry). lv r.addr) e ∙ old.0,
          ap (λ (r : PageTableEntry). px r.addr) e ∙ old.1,
        );
  }

  pub placed-KeepsForeign : KeepsForeign lv s lv placed
  placed-KeepsForeign =
      let not_f : (x : ℕ) → IsForeign lv s x → x / page_size ≢ f =
        λ x h e. omega (arith, ap lv e, h.no_table, leaf) in
      record {
        same = λ x h. write_entry_frame s.mem f i x pe small (omega (arith, not_f x h));
        stays = λ x h. record {
          apart = h.apart;
          no_table = h.no_table;
          owned = elim (Bool-cases (ltb (x / page_size) (frames_of s))) [
            | inl in_map ↦
                let below : x / page_size < frames_of s = ltb→lt _ _ in_map in
                ground (arith, taken_same (x / page_size) below, h.owned)
            | inr out_map ↦ inr (ground (arith, out_map))
          ];
        };
      }
