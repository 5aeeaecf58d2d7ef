-- ===== src/Boot/Inode.antt =====
-- Where the boot loader looks for the inode of a directory entry: bootloader.c 287 to 293, and again
-- 332 to 338.
use osfort.Memory.{Mem, load32}
use osfort.Boot.File.{lba}
use osfort.Base.{ℕ, ◌+◌, ◌-◌, ◌*◌, ◌/◌, ◌%◌, ◌^◌, ◌≤◌, ◌≡◌, u32}

-- inode_table of a group's EXT2_BLOCK_GROUP_DESCRIPTOR.
abbrev pub inode_table : Mem → ℕ → ℕ → ℕ
inode_table m group_desc_tbl group = load32 m (group_desc_tbl + 32 * group + 8)

-- What is read for an inode: the group, the first block on the disk and the number of bytes, and where
-- the inode is taken to lie in what was read.
pub record Place : Type 0 where
  pub group : ℕ
  pub first : ℕ
  pub size : ℕ
  pub offset : ℕ

module _ (m : Mem) (group_desc_tbl start block_size inode_size inode_per_group : ℕ) where
  unfoldable pub place : ℕ → Place
  place inode =
      let group = inode / inode_per_group in
      record {
        group = group;
        first = lba start block_size (inode_table m group_desc_tbl group);
        size = block_size;
        offset = u32 (inode_size * u32 (inode % inode_per_group + 2 ^ 32 - 1));
      }

  -- ext2 counts inodes from 1: the inode lies in the table of its group, behind those before it, and
  -- wholly in the part of the table that is read.
  pub record IsExt2Place (inode : ℕ) (p : Place) : Type 0 where
    pub in_group : p.group ≡ (inode - 1) / inode_per_group
    pub at_table :
        p.first
        ≡ lba start block_size (inode_table m group_desc_tbl ((inode - 1) / inode_per_group))
    pub behind : p.offset ≡ inode_size * ((inode - 1) % inode_per_group)
    pub inside : p.offset + inode_size ≤ p.size
