-- ===== src/Boot/File.antt =====
-- How the boot loader reads a file or a directory: bootloader.c 257 to 263, and again 302 to 308 and
-- 347 to 353. The firmware's ReadBlocks is a parameter: the memory, the first block on the disk, the
-- number of bytes and the buffer, to the new memory, or `none` for an error.
pub mod Read
use osfort.Base.{ℕ, zero, suc, ◌+◌, ◌*◌, ◌/◌, ◌%◌, ◌^◌, Option, none, some, u32, u64}
use osfort.Memory.{Mem, load32}

abbrev pub lba_size : ℕ
lba_size = 512

-- block_cnt and block[i] of the EXT2_INODE at an address.
abbrev pub block_cnt : Mem → ℕ → ℕ
block_cnt m inode = load32 m (inode + 28)

abbrev pub block : Mem → ℕ → ℕ → ℕ
block m inode i = load32 m (inode + 40 + 4 * i)

-- The first block on the disk of a block of the file system.
abbrev pub lba : ℕ → ℕ → ℕ → ℕ
lba primary_part_start_lba block_size b =
    u64 (primary_part_start_lba + u64 (b * block_size) / lba_size)

module _ (read_blocks : Mem → ℕ → ℕ → ℕ → Option Mem) where
  -- The loop at block i with k blocks left. The loader stops at an error: `none`.
  unfoldable pub read_from : ℕ → ℕ → ℕ → ℕ → ℕ → ℕ → Mem → Option Mem
  read_from zero i start block_size inode buffer m = some m
  read_from (suc k) i start block_size inode buffer m =
      elim (read_blocks m (lba start block_size (block m inode i)) block_size
          (u64 (buffer + block_size * i)))
        as (λ _. Option Mem) [
          | none ↦ none
          | some m' ↦ read_from k (i + 1) start block_size inode buffer m'
        ]

  -- The number of blocks is taken from the inode at the start: the buffer lies apart from it.
  unfoldable pub read_file : ℕ → ℕ → ℕ → ℕ → Mem → Option Mem
  read_file start block_size inode buffer m =
      read_from (u32 (block_cnt m inode * 512) / block_size) 0 start block_size inode buffer m
