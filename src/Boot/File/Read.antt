-- ===== src/Boot/File/Read.antt =====
-- bootloader.c 257 to 263: the reading of a file.
use osfort.Base.{
  ℕ, zero, suc, ◌+◌, ◌*◌, ◌/◌, ◌^◌, ◌≤◌, ◌<◌, ◌≡◌, ◌⊎◌, inl, inr, refl, ap, ◌∙◌, sym, Option, some,
  u32, u64, arith,
}
use osfort.Base.Arith.{eq-or-later}
use osfort.Memory.{Mem}
use osfort.Memory.Laws.{load_bytes_ext}
use osfort.Boot.File.{lba_size, block_cnt, block, lba, read_from, read_file}

-- The documented behaviour of ReadBlocks without an error: the bytes of the disk from that block on
-- are put into the buffer, and no other byte of memory changes.
abbrev pub Reads : (Mem → ℕ → ℕ → ℕ → Option Mem) → (ℕ → ℕ) → Type 0
Reads read_blocks disk =
    (m : Mem) (l size buffer : ℕ)
    → (m' : Mem) × ((read_blocks m l size buffer ≡ some m')
        × ((x : ℕ) → x < size → m' (buffer + x) ≡ disk (l * lba_size + x))
        × ((y : ℕ) → (y < buffer) ⊎ (buffer + size ≤ y) → m' y ≡ m y))

module _ (read_blocks : Mem → ℕ → ℕ → ℕ → Option Mem) (disk : ℕ → ℕ)
    (reads : Reads read_blocks disk) (start block_size inode buffer : ℕ) where
  -- Blocks [i, i + k) of the inode in m are in the buffer in r, and nothing else is changed.
  abbrev pub Holds : ℕ → ℕ → Mem → Mem → Type 0
  Holds i k m r =
      ((j x : ℕ)
        → i ≤ j
        → j < i + k
        → x < block_size
        → r (buffer + block_size * j + x)
          ≡ disk (lba start block_size (block m inode j) * lba_size + x))
      × ((y : ℕ) → (y < buffer + block_size * i) ⊎ (buffer + block_size * (i + k) ≤ y) → r y ≡ m y)

  -- The inode's list of n blocks lies apart from the buffer for n blocks.
  abbrev pub IsApart : ℕ → Type 0
  IsApart n = (inode + 40 + 4 * n ≤ buffer) ⊎ (buffer + block_size * n ≤ inode)

  read_from-Holds :
      (k i n : ℕ) (m : Mem)
      → i + k ≡ n
      → buffer + block_size * n < 2 ^ 64
      → IsApart n
      → (r : Mem) × ((read_from read_blocks k i start block_size inode buffer m ≡ some r)
          × Holds i k m r)
  unfolding read_from
  read_from-Holds zero i n m e fits apart =
      (m, (refl, (λ j x p q. absurd (omega arith), λ y out. refl)))
  read_from-Holds (suc k) i n m e fits apart =
      let at = buffer + block_size * i in
      let whole : block_size * n ≡ block_size * i + block_size + block_size * k =
        ap (λ (t : ℕ). block_size * t) (sym e) ∙ omega arith in
      let upper : block_size * (i + suc k) ≡ block_size * (i + 1 + k) =
        ap (λ (t : ℕ). block_size * t) (omega arith) in
      let next : block_size * (i + 1) ≡ block_size * i + block_size = omega arith in
      let exact : u64 at ≡ at = omega (arith, whole, fits) in
      let (m', (e', here, others)) =
        reads m (lba start block_size (block m inode i)) block_size at in
      let (r, (runs, (later, frame))) = read_from-Holds k (i + 1) n m' (omega arith) fits apart in
      let same_block : (j : ℕ) → j < n → block m' inode j ≡ block m inode j = λ j q.
        load_bytes_ext 4 m' m (inode + 40 + 4 * j)
          (λ x p q'. others x (omega (arith, whole, apart))) in
      rw (read_from, exact, e')
        (
          r,
          (
            runs,
            (
              λ j x p q h. elim (eq-or-later i j p) [
                | inl same ↦ rw (← same) (frame (at + x) (inl (omega arith)) ∙ here x h)
                | inr p' ↦
                    later j x p' (omega arith) h
                    ∙ ap (λ (b : ℕ). disk (lba start block_size b * lba_size + x))
                        (same_block j (omega arith))
              ],
              λ y out. frame y (omega (arith, upper, next)) ∙ others y (omega (arith, upper, next)),
            ),
          ),
        )

-- With a disk that reads without errors, a file of 12 blocks at most, whose list of blocks lies apart
-- from the buffer, and a buffer that ends below 2 ^ 64: the file is read, byte x of its block j is then
-- in the buffer at block_size * j + x, and no byte outside the buffer is changed.
pub read_file-Holds :
    (read_blocks : Mem → ℕ → ℕ → ℕ → Option Mem) (disk : ℕ → ℕ) (m : Mem)
    (start block_size inode buffer : ℕ)
    → Reads read_blocks disk
    → let n = u32 (block_cnt m inode * 512) / block_size in
      n ≤ 12
      → buffer + block_size * n < 2 ^ 64
      → (inode + 40 + 4 * n ≤ buffer) ⊎ (buffer + block_size * n ≤ inode)
      → (r : Mem) × ((read_file read_blocks start block_size inode buffer m ≡ some r)
          × ((j x : ℕ)
              → j < n
              → x < block_size
              → r (buffer + block_size * j + x)
                ≡ disk (lba start block_size (block m inode j) * lba_size + x))
          × ((y : ℕ) → (y < buffer) ⊎ (buffer + block_size * n ≤ y) → r y ≡ m y))
unfolding read_file
read_file-Holds read_blocks disk m start block_size inode buffer reads direct fits apart =
    let n = u32 (block_cnt m inode * 512) / block_size in
    let (r, (runs, (inside, frame))) =
      read_from-Holds read_blocks disk reads start block_size inode buffer n 0 n m (omega arith)
        fits apart in
    let whole : block_size * (0 + n) ≡ block_size * n =
      ap (λ (t : ℕ). block_size * t) (omega arith) in
    let none_before : block_size * 0 ≡ 0 = omega arith in
    (
      r,
      (
        runs,
        λ j x q h. inside j x (omega arith) (omega arith) h,
        λ y out. frame y (omega (arith, whole, none_before)),
      ),
    )
