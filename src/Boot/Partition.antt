-- ===== src/Boot/Partition.antt =====
-- The search for the partition with the kernel's file system: bootloader.c 181 to 192. ReadBlocks gives
-- the new memory and whether it failed.
pub mod First
use osfort.Base.{
  ℕ, zero, suc, ◌+◌, ◌*◌, ◌%◌, ◌^◌, Option, none, some, Bool, if◌then◌else◌, ◌==◌, u64,
}
use osfort.Memory.{Mem, load64, load_bytes}

-- part_start_lba of entry i of the partition table, and magic of the superblock.
abbrev pub part_start_lba : Mem → ℕ → ℕ → ℕ
part_start_lba m part_tbl i = load64 m (part_tbl + 128 * i + 32)

abbrev pub magic : Mem → ℕ → ℕ
magic m superblock = load_bytes 2 m (superblock + 56)

-- What the search ends with: the memory, and the first block of the partition, if there is one.
abbrev pub Ending : Type 0
Ending = Mem × Option ℕ

module _ (read_blocks : Mem → ℕ → ℕ → ℕ → Mem × Bool) where
  -- The loop at entry i with k entries left. An entry that cannot be read is passed over.
  unfoldable pub find_partition : ℕ → ℕ → ℕ → ℕ → Mem → Ending
  find_partition zero i part_tbl primary_part m = (m, none)
  find_partition (suc k) i part_tbl primary_part m =
      let result = read_blocks m (u64 (part_start_lba m part_tbl i + 2)) 512 primary_part in
      let m' = result.0 in
      let rest = find_partition k (i + 1) part_tbl primary_part m' in
      if result.1
      then rest
      else if magic m' primary_part == 0xef53
      then (m', some (part_start_lba m' part_tbl i))
      else rest
