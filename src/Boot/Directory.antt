-- ===== src/Boot/Directory.antt =====
-- The search of an ext2 directory for a name: bootloader.c 265 to 285, and again 310 to 330.
pub mod Ends
use osfort.Base.{
  ℕ, zero, suc, ◌+◌, ◌*◌, ◌%◌, ◌^◌, Option, none, some, Bool, if◌then◌else◌, ltb, u32, u64,
}
use osfort.Memory.{Mem, load8, load_bytes}

-- EXT2_DIRECTORY_ENTRY at an address, as far as the search reads it.
abbrev pub rec_len : Mem → ℕ → ℕ
rec_len m entry = load_bytes 2 m (entry + 4)

abbrev pub name_len : Mem → ℕ → ℕ
name_len m entry = load8 m (entry + 6)

abbrev pub name_at : ℕ → ℕ
name_at entry = entry + 8

-- An entry was found, or the search gave up, which the loader tells and then stops.
pub data Outcome : Type 0 where
  found : ℕ → Outcome
  gave_up : Outcome

-- The firmware library's strncmpa: whether the name at the address agrees with the one looked for.
module _ (same_name : Mem → ℕ → Bool) where
  -- The loop at round i and entry tmp, on fuel; `none` where the fuel runs out. An entry whose name
  -- does not fit its record is looked at again.
  unfoldable pub search : ℕ → ℕ → ℕ → Mem → ℕ → Option Outcome
  search zero i block_cnt m tmp = none
  search (suc fuel) i block_cnt m tmp =
      let again = search fuel (u64 (i + 1)) block_cnt m tmp in
      let next = search fuel (u64 (i + 1)) block_cnt m (tmp + rec_len m tmp) in
      if same_name m (name_at tmp)
      then some (found tmp)
      else if ltb (rec_len m tmp) (name_len m tmp + 8)
      then again
      else if ltb (u32 (block_cnt * 512)) i
      then some gave_up
      else next
