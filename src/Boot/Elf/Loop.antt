-- ===== src/Boot/Elf/Loop.antt =====
-- bootloader.c 419 to 442: the loop over the program headers.
use mathlib.Core.Path.{subst}
use osfort.Base.{
  ℕ, zero, suc, ◌+◌, ◌*◌, ◌≤◌, ◌<◌, ◌≡◌, ◌≢◌, ◌⊎◌, inl, inr, refl, sym, ap, ap₂, ne→==, ◌∙◌, Option,
  some, false, ◌==◌, arith,
}
use osfort.Base.Arith.{eq-or-later}
use osfort.Memory.{Mem, load8, load_bytes, load32}
use osfort.Memory.Laws.{load_bytes_ext, load8_cong}
use osfort.Boot.Elf.{
  p_type, p_offset, p_paddr, p_filesz, p_memsz, pt_load, pages_of, load_segment, load_from,
}
use osfort.Boot.Elf.Segments.{IsPlaceable, IsPlaced, room, load_segment-IsPlaced}

-- An address is outside of the pages of a segment; a range of n bytes is.
abbrev pub IsOff : Mem → ℕ → ℕ → Type 0
IsOff m phdr y = (y < p_paddr m phdr) ⊎ (p_paddr m phdr + room m phdr ≤ y)

abbrev pub IsApart : Mem → ℕ → ℕ → ℕ → Type 0
IsApart m phdr from n = (from + n ≤ p_paddr m phdr) ⊎ (p_paddr m phdr + room m phdr ≤ from)

abbrev pub phdr_at : ℕ → ℕ → ℕ → ℕ
phdr_at buffer size i = buffer + i * size

-- Header i is one of `count` and asks for a segment.
abbrev pub Loads : Mem → ℕ → ℕ → ℕ → ℕ → Type 0
Loads m buffer size count i = (i < count) × (p_type m (phdr_at buffer size i) ≡ pt_load)

-- The pages of the segments are apart from one another, from all headers, and from the parts of the
-- file that they take.
pub record IsLoadable (m : Mem) (kernel buffer size count : ℕ) : Type 0 where
  pub placeable :
      (i : ℕ) → Loads m buffer size count i → IsPlaceable m kernel (phdr_at buffer size i)
  pub headers :
      (i j : ℕ)
      → i < count
      → Loads m buffer size count j
      → IsApart m (phdr_at buffer size j) (phdr_at buffer size i) 56
  pub files :
      (i j : ℕ)
      → Loads m buffer size count i
      → Loads m buffer size count j
      → IsApart m
          (phdr_at buffer size j)
          (kernel + p_offset m (phdr_at buffer size i))
          (p_filesz m (phdr_at buffer size i))
  pub segments :
      (i j : ℕ)
      → i ≢ j
      → Loads m buffer size count i
      → Loads m buffer size count j
      → IsApart m
          (phdr_at buffer size j)
          (p_paddr m (phdr_at buffer size i))
          (room m (phdr_at buffer size i))

-- The documented behaviour of AllocatePages where it succeeds: only the pages may change.
abbrev pub FramesPages : (Mem → ℕ → ℕ → Option Mem) → Type 0
FramesPages allocate_pages =
    (m m' : Mem) (a n y : ℕ)
    → allocate_pages m a n ≡ some m'
    → (y < a) ⊎ (a + n * 0x1000 ≤ y)
    → m' y ≡ m y

-- It gives the pages of each segment.
abbrev pub Grants : (Mem → ℕ → ℕ → Option Mem) → Mem → ℕ → ℕ → ℕ → Type 0
Grants allocate_pages m0 buffer size count =
    (i : ℕ) (m : Mem)
    → Loads m0 buffer size count i
    → (m' : Mem) × (allocate_pages m (p_paddr m0 (phdr_at buffer size i))
          (pages_of (p_memsz m0 (phdr_at buffer size i)))
        ≡ some m')

-- The segments before header i are in place, and nothing outside of all segments has changed.
pub record IsLoadedTo (m0 : Mem) (kernel buffer size count i : ℕ) (m : Mem) : Type 0 where
  pub same :
      (y : ℕ)
      → ((j : ℕ) → Loads m0 buffer size count j → IsOff m0 (phdr_at buffer size j) y)
      → m y ≡ m0 y
  pub loaded :
      (j x : ℕ)
      → j < i
      → Loads m0 buffer size count j
      → x < p_filesz m0 (phdr_at buffer size j)
      → load8 m (p_paddr m0 (phdr_at buffer size j) + x)
        ≡ load8 m0 (kernel + p_offset m0 (phdr_at buffer size j) + x)

load_from-some :
    (allocate_pages : Mem → ℕ → ℕ → Option Mem) (k kernel phdr size : ℕ) (m m' : Mem)
    → load_segment allocate_pages kernel phdr m ≡ some m'
    → load_from allocate_pages (suc k) kernel phdr size m
      ≡ load_from allocate_pages k kernel (phdr + size) size m'
unfolding load_from
load_from-some allocate_pages k kernel phdr size m m' e = rw (load_from, e) refl

module _ (m0 : Mem) (kernel buffer size count : ℕ)
    (loadable : IsLoadable m0 kernel buffer size count) where
  -- A header reads the same all along, and the file's part of a segment too.
  header_same :
      (i : ℕ) (m : Mem) (n o : ℕ)
      → IsLoadedTo m0 kernel buffer size count i m
      → i < count
      → o + n ≤ 56
      → load_bytes n m (phdr_at buffer size i + o) ≡ load_bytes n m0 (phdr_at buffer size i + o)
  header_same i m n o h small inside =
      load_bytes_ext n m m0 (phdr_at buffer size i + o)
        (λ y p q. h.same y (λ j loads. omega (arith, loadable.headers i j small loads)))

  module _ (i : ℕ) (m : Mem) (h : IsLoadedTo m0 kernel buffer size count i m)
      (small : i < count) where
    phdr : ℕ
    phdr = phdr_at buffer size i

    type_same : p_type m phdr ≡ p_type m0 phdr
    unfolding phdr
    type_same =
        ap (load32 m) (omega arith)
        ∙ header_same i m 4 0 h small (omega arith)
        ∙ ap (load32 m0) (omega arith)

    offset_same : p_offset m phdr ≡ p_offset m0 phdr
    unfolding phdr
    offset_same = header_same i m 8 8 h small (omega arith)

    paddr_same : p_paddr m phdr ≡ p_paddr m0 phdr
    unfolding phdr
    paddr_same = header_same i m 8 24 h small (omega arith)

    filesz_same : p_filesz m phdr ≡ p_filesz m0 phdr
    unfolding phdr
    filesz_same = header_same i m 8 32 h small (omega arith)

    memsz_same : p_memsz m phdr ≡ p_memsz m0 phdr
    unfolding phdr
    memsz_same = header_same i m 8 40 h small (omega arith)

    room_same : room m phdr ≡ room m0 phdr
    room_same = ap (λ (t : ℕ). pages_of t * 0x1000) memsz_same

    still-IsPlaceable : IsPlaceable m0 kernel phdr → IsPlaceable m kernel phdr
    still-IsPlaceable placeable = record {
      fits = omega (arith, placeable.fits, paddr_same, room_same);
      enough = omega (arith, placeable.enough, filesz_same, room_same);
      file = omega (arith, placeable.file, offset_same, filesz_same);
      file_apart =
          omega (arith, placeable.file_apart, offset_same, filesz_same, paddr_same, room_same);
      header_apart = omega (arith, placeable.header_apart, paddr_same, room_same);
    }

    module _ (m' r : Mem) (loads : p_type m0 phdr ≡ pt_load)
        (placed : IsPlaced m m' kernel phdr r) where
      loaded_here :
          (x : ℕ)
          → x < p_filesz m0 phdr
          → load8 r (p_paddr m0 phdr + x) ≡ load8 m0 (kernel + p_offset m0 phdr + x)
      unfolding phdr
      loaded_here x q =
          ap (λ (t : ℕ). load8 r (t + x)) (sym paddr_same)
          ∙ placed.copied x (omega (arith, q, filesz_same))
          ∙ ap (λ (t : ℕ). load8 m (kernel + t + x)) offset_same
          ∙ load8_cong m m0 _ (
              h.same (kernel + p_offset m0 phdr + x)
                (λ j loads'. omega (arith, loadable.files i j (small, loads) loads', q)))

      -- A segment that is placed after others leaves them.
      loaded_before :
          (j x : ℕ)
          → j < i
          → Loads m0 buffer size count j
          → x < p_filesz m0 (phdr_at buffer size j)
          → load8 r (p_paddr m0 (phdr_at buffer size j) + x)
            ≡ load8 m0 (kernel + p_offset m0 (phdr_at buffer size j) + x)
      unfolding phdr
      loaded_before j x before loads' q =
          let apart = loadable.segments j i (λ e. omega (arith, e)) loads' (small, loads) in
          let enough = (loadable.placeable j loads').enough in
          load8_cong r m (p_paddr m0 (phdr_at buffer size j) + x)
            (placed.frame _ (omega (arith, apart, enough, q, paddr_same, room_same)))
          ∙ h.loaded j x before loads' q

      placed-IsLoadedTo : IsLoadedTo m0 kernel buffer size count (i + 1) r
      unfolding phdr
      placed-IsLoadedTo = record {
        same = λ y out.
            placed.frame y (omega (arith, out i (small, loads), paddr_same, room_same))
            ∙ h.same y out;
        loaded = λ j x p loads' q. elim (eq-or-later j i (omega arith)) [
          | inl here ↦
              rw here (loaded_here x (subst (λ t. x < p_filesz m0 (phdr_at buffer size t)) here q))
          | inr before ↦ loaded_before j x (omega arith) loads' q
        ];
      }

    passed-IsLoadedTo : p_type m0 phdr ≢ pt_load → IsLoadedTo m0 kernel buffer size count (i + 1) m
    unfolding phdr
    passed-IsLoadedTo not_loads = record {
      same = h.same;
      loaded = λ j x p loads q. elim (eq-or-later j i (omega arith)) [
        | inl here ↦
            absurd (not_loads (ap (λ t. p_type m0 (phdr_at buffer size t)) (sym here) ∙ loads.1))
        | inr before ↦ h.loaded j x (omega arith) loads q
      ];
    }

    module _ (allocate_pages : Mem → ℕ → ℕ → Option Mem) where
      Stepped : Type 0
      Stepped =
          (r : Mem) × ((load_segment allocate_pages kernel phdr m ≡ some r)
            × IsLoadedTo m0 kernel buffer size count (i + 1) r)

      load_segment-pass :
          p_type m0 phdr ≢ pt_load → load_segment allocate_pages kernel phdr m ≡ some m
      unfolding load_segment
      load_segment-pass not_loads =
          let test : (p_type m phdr == pt_load) ≡ false =
            ne→== _ _ (λ e. not_loads (sym type_same ∙ e)) in
          rw test refl

      step :
          FramesPages allocate_pages
          → Grants allocate_pages m0 buffer size count
          → (p_type m0 phdr ≡ pt_load) ⊎ (p_type m0 phdr ≢ pt_load)
          → Stepped
      unfolding phdr Stepped
      step frames grants (inr not_loads) =
          (m, (load_segment-pass not_loads, passed-IsLoadedTo not_loads))
      step frames grants (inl loads) =
          let granted = grants i m (small, loads) in
          let e : allocate_pages m (p_paddr m phdr) (pages_of (p_memsz m phdr)) ≡ some granted.0 =
            ap₂ (λ (a n : ℕ). allocate_pages m a (pages_of n)) paddr_same memsz_same ∙ granted.1 in
          let placed =
            load_segment-IsPlaced allocate_pages m granted.0 kernel phdr
              (still-IsPlaceable (loadable.placeable i (small, loads))) (type_same ∙ loads) e
              (λ y out. frames m granted.0 _ _ y e out) in
          (placed.0, (placed.1.0, placed-IsLoadedTo granted.0 placed.0 loads placed.1.1))

  module _ (allocate_pages : Mem → ℕ → ℕ → Option Mem) (frames : FramesPages allocate_pages)
      (grants : Grants allocate_pages m0 buffer size count) where
    load_from-IsLoadedTo :
        (k i at : ℕ) (m : Mem)
        → i + k ≡ count
        → at ≡ phdr_at buffer size i
        → IsLoadedTo m0 kernel buffer size count i m
        → (r : Mem) × ((load_from allocate_pages k kernel at size m ≡ some r)
            × IsLoadedTo m0 kernel buffer size count count r)
    unfolding load_from phdr Stepped
    load_from-IsLoadedTo zero i at m left e h =
        let all : count ≡ i = omega (arith, left) in
        (m, (refl, subst (λ t. IsLoadedTo m0 kernel buffer size count t m) (sym all) h))
    load_from-IsLoadedTo (suc k) i at m left e h =
        let stepped = step i m h (omega (arith, left)) allocate_pages frames grants (omega arith) in
        let rest =
          load_from-IsLoadedTo k (i + 1) (at + size) stepped.0 (omega (arith, left))
            (omega (arith, e)) stepped.1.1 in
        let done : load_segment allocate_pages kernel at m ≡ some stepped.0 =
          ap (λ t. load_segment allocate_pages kernel t m) e ∙ stepped.1.0 in
        (
          rest.0,
          (load_from-some allocate_pages k kernel at size m stepped.0 done ∙ rest.1.0, rest.1.1),
        )

-- Where the segments of a file are loadable and AllocatePages grants them: the loop over the headers
-- ends with every segment's part of the file in its place, whatever the order of the headers, and
-- outside of the segments' pages no byte has changed.
pub load_from-IsLoaded :
    (m : Mem) (kernel buffer size count : ℕ) (allocate_pages : Mem → ℕ → ℕ → Option Mem)
    → IsLoadable m kernel buffer size count
    → FramesPages allocate_pages
    → Grants allocate_pages m buffer size count
    → (r : Mem) × ((load_from allocate_pages count kernel buffer size m ≡ some r)
        × IsLoadedTo m kernel buffer size count count r)
load_from-IsLoaded m kernel buffer size count allocate_pages loadable frames grants =
    load_from-IsLoadedTo m kernel buffer size count loadable allocate_pages frames grants count 0
      buffer m (omega arith) (omega arith)
      (record { same = λ y out. refl; loaded = λ j x p loads q. absurd (omega arith) })
