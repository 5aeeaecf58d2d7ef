-- ===== src/Boot/Elf/Segments.antt =====
-- bootloader.c 427 to 441: the loading of one segment.
use osfort.Base.{
  ℕ, zero, suc, ◌+◌, ◌*◌, ◌^◌, ◌≤◌, ◌<◌, ◌≡◌, ◌⊎◌, inl, inr, refl, ap, ◌∙◌, Option, some, true, u64,
  ◌==◌, eq→==, arith,
}
use osfort.Base.Arith.{eq-or-later}
use osfort.Memory.{Mem, load8, store8, load64}
use osfort.Memory.Laws.{
  store8-ne, load8-store8_self, load8-store8_ne, load8_cong, load8-mod, load_bytes_ext,
}
use osfort.Boot.Elf.{
  p_type, p_offset, p_paddr, p_filesz, p_memsz, pt_load, pages_of, copy_from, copy_segment,
  load_segment,
}

-- Where the two ranges do not meet and do not wrap, the bytes are copied and no other is changed.
pub copy_from_frame :
    (k i to from : ℕ) (m : Mem) (y : ℕ)
    → to + i + k ≤ 2 ^ 64
    → (y < to + i) ⊎ (to + i + k ≤ y)
    → copy_from k i to from m y ≡ m y
unfolding copy_from
copy_from_frame zero i to from m y fits out = refl
copy_from_frame (suc k) i to from m y fits out =
    let exact : u64 (to + i) ≡ to + i = omega arith in
    copy_from_frame k (i + 1) to from _ y (omega arith) (omega arith)
    ∙ rw exact (store8-ne m (to + i) _ y (omega arith))

pub copy_from-load8 :
    (k i to from : ℕ) (m : Mem) (x : ℕ)
    → to + i + k ≤ 2 ^ 64
    → from + i + k ≤ 2 ^ 64
    → (from + i + k ≤ to + i) ⊎ (to + i + k ≤ from + i)
    → i ≤ x
    → x < i + k
    → load8 (copy_from k i to from m) (to + x) ≡ load8 m (from + x)
unfolding copy_from
copy_from-load8 zero i to from m x fits fits' apart p q = absurd (omega arith)
copy_from-load8 (suc k) i to from m x fits fits' apart p q =
    let exact : u64 (to + i) ≡ to + i = omega arith in
    let exact' : u64 (from + i) ≡ from + i = omega arith in
    let m' = store8 m (to + i) (load8 m (from + i)) in
    rw (exact, exact')
      (elim (eq-or-later i x p) [
        | inl here ↦ rw (← here) (
            load8_cong (copy_from k (i + 1) to from m') m' (to + i)
              (copy_from_frame k (i + 1) to from m' (to + i) (omega arith) (inl (omega arith)))
            ∙ load8-store8_self m (to + i) (load8 m (from + i))
            ∙ load8-mod m (from + i))
        | inr p' ↦
            copy_from-load8 k (i + 1) to from m' x (omega arith) (omega arith) (omega arith) p'
              (omega arith)
            ∙ load8-store8_ne m (to + i) _ (from + x) (omega arith)
      ])

-- Where the bytes go past the header, it is the same to read the header once.
copy_segment_lem :
    (k i to kernel phdr offset : ℕ) (m : Mem)
    → p_offset m phdr ≡ offset
    → to + i + k ≤ 2 ^ 64
    → kernel + offset + i + k ≤ 2 ^ 64
    → (phdr + 56 ≤ to + i) ⊎ (to + i + k ≤ phdr)
    → copy_segment k i to kernel phdr m ≡ copy_from k i to (kernel + offset) m
unfolding copy_segment copy_from
copy_segment_lem zero i to kernel phdr offset m e fits fits' apart = refl
copy_segment_lem (suc k) i to kernel phdr offset m e fits fits' apart =
    let exact : u64 (to + i) ≡ to + i = omega arith in
    let m' = store8 m (u64 (to + i)) (load8 m (u64 (kernel + offset + i))) in
    let kept : p_offset m' phdr ≡ offset =
      load_bytes_ext 8 m' m (phdr + 8)
        (λ x p q. rw exact (store8-ne m (to + i) _ x (omega (arith, apart, p, q))))
      ∙ e in
    rw e (
      copy_segment_lem k (i + 1) to kernel phdr offset m' kept (omega arith) (omega arith)
        (omega (arith, apart)))

-- The pages of a segment.
abbrev pub room : Mem → ℕ → ℕ
room m phdr = pages_of (p_memsz m phdr) * 0x1000

-- What the loader relies on: the pages do not wrap and hold the part of the file, which does not wrap
-- either, and neither that part nor the header lies in them.
pub record IsPlaceable (m : Mem) (kernel phdr : ℕ) : Type 0 where
  pub fits : p_paddr m phdr + room m phdr ≤ 2 ^ 64
  pub enough : p_filesz m phdr ≤ room m phdr
  pub file : kernel + p_offset m phdr + p_filesz m phdr < 2 ^ 64
  pub file_apart :
      (kernel + p_offset m phdr + p_filesz m phdr ≤ p_paddr m phdr)
      ⊎ (p_paddr m phdr + room m phdr ≤ kernel + p_offset m phdr)
  pub header_apart : (phdr + 56 ≤ p_paddr m phdr) ⊎ (p_paddr m phdr + room m phdr ≤ phdr)

-- The documented behaviour of AllocatePages where it succeeds: only the pages may change.
abbrev pub Allocated : Mem → ℕ → Mem → Type 0
Allocated m phdr m' =
    (y : ℕ) → (y < p_paddr m phdr) ⊎ (p_paddr m phdr + room m phdr ≤ y) → m' y ≡ m y

-- The file's part of the segment is in place, the rest of its pages is as the firmware gave it, and
-- all other memory is as it was.
pub record IsPlaced (m m' : Mem) (kernel phdr : ℕ) (r : Mem) : Type 0 where
  pub copied :
      (x : ℕ)
      → x < p_filesz m phdr
      → load8 r (p_paddr m phdr + x) ≡ load8 m (kernel + p_offset m phdr + x)
  pub rest : (y : ℕ) → p_paddr m phdr + p_filesz m phdr ≤ y → r y ≡ m' y
  pub frame : (y : ℕ) → (y < p_paddr m phdr) ⊎ (p_paddr m phdr + room m phdr ≤ y) → r y ≡ m y

module _ (m m' : Mem) (kernel phdr : ℕ) (placeable : IsPlaceable m kernel phdr)
    (allocated : Allocated m phdr m') where
  -- The header reads the same after the allocation.
  field_same : (o : ℕ) → o + 8 ≤ 56 → load64 m' (phdr + o) ≡ load64 m (phdr + o)
  field_same o h =
      load_bytes_ext 8 m' m (phdr + o)
        (λ x p q. allocated x (omega (arith, placeable.header_apart)))

  copied_segment : Mem
  copied_segment = copy_from (p_filesz m phdr) 0 (p_paddr m phdr) (kernel + p_offset m phdr) m'

  copied_segment-IsPlaced : IsPlaced m m' kernel phdr copied_segment
  unfolding copied_segment
  copied_segment-IsPlaced =
      let to = p_paddr m phdr in
      let from = kernel + p_offset m phdr in
      let inside : p_filesz m phdr ≤ room m phdr = placeable.enough in
      let apart = placeable.file_apart in
      let fits = placeable.fits in
      record {
        copied = λ x h.
            copy_from-load8 (p_filesz m phdr) 0 to from m' x (omega (arith, fits, inside))
              (omega (arith, placeable.file)) (omega (arith, apart, inside)) (omega arith)
              (omega arith)
            ∙ load8_cong m' m (from + x) (allocated (from + x) (omega (arith, apart, h)));
        rest = λ y h.
            copy_from_frame (p_filesz m phdr) 0 to from m' y (omega (arith, fits, inside))
              (inr (omega arith));
        frame = λ y out.
            copy_from_frame (p_filesz m phdr) 0 to from m' y (omega (arith, fits, inside))
              (omega (arith, out, inside))
            ∙ allocated y out;
      }

  load_segment-copied :
      (allocate_pages : Mem → ℕ → ℕ → Option Mem)
      → p_type m phdr ≡ pt_load
      → allocate_pages m (p_paddr m phdr) (pages_of (p_memsz m phdr)) ≡ some m'
      → load_segment allocate_pages kernel phdr m ≡ some copied_segment
  unfolding load_segment copied_segment
  load_segment-copied allocate_pages loads e =
      let test : (p_type m phdr == pt_load) ≡ true = eq→== _ _ loads in
      rw (load_segment, test, e, field_same 32 (omega arith))
        (ap some (
          copy_segment_lem (p_filesz m phdr) 0 (p_paddr m phdr) kernel phdr (p_offset m phdr) m'
            (field_same 8 (omega arith)) (omega (arith, placeable.fits, placeable.enough))
            (omega (arith, placeable.file))
            (omega (arith, placeable.header_apart, placeable.enough))))

-- For a program header of type PT_LOAD that is placeable, where AllocatePages gives the pages and
-- changes nothing outside them: load_segment succeeds, the file's bytes are in place, the bytes of the
-- pages behind them are as the firmware gave them, not cleared, and all other memory is as it was.
pub load_segment-IsPlaced :
    (allocate_pages : Mem → ℕ → ℕ → Option Mem) (m m' : Mem) (kernel phdr : ℕ)
    → IsPlaceable m kernel phdr
    → p_type m phdr ≡ pt_load
    → allocate_pages m (p_paddr m phdr) (pages_of (p_memsz m phdr)) ≡ some m'
    → Allocated m phdr m'
    → (r : Mem) × ((load_segment allocate_pages kernel phdr m ≡ some r)
        × IsPlaced m m' kernel phdr r)
load_segment-IsPlaced allocate_pages m m' kernel phdr placeable loads e allocated = (
  copied_segment m m' kernel phdr placeable allocated,
  (
    load_segment-copied m m' kernel phdr placeable allocated allocate_pages loads e,
    copied_segment-IsPlaced m m' kernel phdr placeable allocated,
  ),
)
