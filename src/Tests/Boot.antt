-- ===== src/Tests/Boot.antt =====
-- The boot loader's parts at concrete disks and tables.
use osfort.Base.{
  ◌∙◌, ℕ, ◌+◌, ◌-◌, ◌*◌, ◌/◌, ◌%◌, ◌≤◌, ◌<◌, ◌≡◌, ◌↔◌, ◌⊎◌, inl, refl, List, [], Option, some, none,
  Bool, true, false, ◌==◌, if◌then◌else◌, ltb, u32, arith,
}
use osfort.Memory.{store_bytes, Mem, load8, load_bytes}
use osfort.Memory.Laws.{store_bytes_frame, load_bytes-store_bytes_self}
use osfort.Boot.Partition.{find_partition}
use osfort.Boot.Partition.First.{Device, Chosen, find_partition-Chosen}
use osfort.Boot.Directory.Ends.{Stops, search-Stops}
use osfort.Boot.File.{block_cnt, block, lba, lba_size, read_file}
use osfort.Boot.File.Read.{Reads, read_file-Holds}
use osfort.Boot.Gop.First
use osfort.Boot.Gop.{choose_mode, not_set}
use osfort.Boot.Xsdt.Last
use osfort.Boot.Xsdt.{find_xsdp, valid, xsdt_addr, check_tables}
use osfort.Boot.Xsdt.Checked.{IsSound, check_tables_iff}

abbrev blank : Mem
blank x = 0

-- Of four entries of zero bytes the last is chosen.
find_xsdp-Chosen_example : Last.Chosen blank 0x300 0x100 0 4 none (find_xsdp blank 4 0x300 0x100)
find_xsdp-Chosen_example = Last.find_xsdp-Chosen blank 4 0x300 0x100

-- A comparison that looks at the first letter only.
abbrev is_b : Mem → ℕ → Bool
is_b m at = load8 m at == b'b'

-- Records of 257 bytes with names of one byte, of which the second is a b.
abbrev listed : Mem
listed x = if x == 0x100 + 257 + 8 then b'b' else 1

search-Stops_example : Stops is_b listed 2 0 0x100
search-Stops_example = search-Stops is_b listed 2 0x100

-- A record of length 0.
abbrev broken : Mem
broken x = 0

-- A disk whose byte a is a modulo 256, read without errors.
abbrev disk : ℕ → ℕ
disk a = a % 256

abbrev read_blocks : Mem → ℕ → ℕ → ℕ → Option Mem
read_blocks m l size buffer = some (λ y.
    if ltb y buffer
    then m y
    else if ltb y (buffer + size)
    then disk (l * lba_size + (y - buffer))
    else m y)

read_inside :
    (m : Mem) (l size buffer x : ℕ)
    → x < size
    → (if ltb (buffer + x) buffer
        then m (buffer + x)
        else if ltb (buffer + x) (buffer + size)
        then disk (l * lba_size + (buffer + x - buffer))
        else m (buffer + x))
      ≡ disk (l * lba_size + x)
read_inside m l size buffer x h = ground arith

reads : Reads read_blocks disk
reads m l size buffer = (_, (refl, λ x h. read_inside m l size buffer x h, λ y out. ground arith))

-- A file of four sectors, in the blocks 5 and 9 of 1024 bytes, with its inode at 0x1000.
abbrev with_inode : Mem
with_inode x = if x == 0x101c then 4 else if x == 0x1028 then 5 else if x == 0x102c then 9 else 0

sectors : block_cnt with_inode 0x1000 ≡ 4
unfolding load_bytes load8
sectors = refl

read_file-Holds_example :
    (r : Mem) × ((read_file read_blocks 2048 1024 0x1000 0x4000 with_inode ≡ some r)
      × ((j x : ℕ)
          → j < u32 (block_cnt with_inode 0x1000 * 512) / 1024
          → x < 1024
          → r (0x4000 + 1024 * j + x)
            ≡ disk (lba 2048 1024 (block with_inode 0x1000 j) * lba_size + x))
      × ((y : ℕ)
          → (y < 0x4000) ⊎ (0x4000 + 1024 * (u32 (block_cnt with_inode 0x1000 * 512) / 1024) ≤ y)
          → r y ≡ with_inode y))
read_file-Holds_example =
    read_file-Holds read_blocks disk with_inode 2048 1024 0x1000 0x4000 reads
      (omega (arith, sectors)) (omega (arith, sectors)) (inl (omega (arith, sectors)))

-- Tables of zeros, whatever their names are.
abbrev any_name : Mem → ℕ → List ℕ → Bool
any_name m at text = true

check_tables_iff_example :
    (check_tables any_name [] [] blank 0x100 ≡ valid (xsdt_addr blank 0x100))
    ↔ IsSound any_name [] [] blank 0x100
check_tables_iff_example = check_tables_iff any_name [] [] blank 0x100

-- A device with the magic number in block 2050 alone, and a table of two entries, of which the second
-- starts at block 2048.
abbrev with_table : Mem
with_table x = if x == 0x8a1 then 8 else 0

abbrev magic_of : ℕ → ℕ
magic_of l = if l == 2050 then 0xef53 else 0

abbrev read_superblock : Mem → ℕ → ℕ → ℕ → Mem × Bool
read_superblock m l size buffer = (store_bytes 2 m (buffer + 56) (magic_of l), false)

read_superblock-Device : Device read_superblock (λ l. false) magic_of
read_superblock-Device m l buffer = (
  refl,
  λ y out. store_bytes_frame 2 m (buffer + 56) (magic_of l) y (omega arith),
  λ ok. load_bytes-store_bytes_self 2 m (buffer + 56) (magic_of l) ∙ ground arith,
)

find_partition-Chosen_example :
    Chosen
      (λ l. false)
      magic_of
      0x800
      with_table
      0
      2
      (find_partition read_superblock 2 0 0x800 0x4000 with_table).1
find_partition-Chosen_example =
    find_partition-Chosen read_superblock (λ l. false) magic_of with_table 0x800 0x4000 2
      read_superblock-Device (inl (omega arith))

-- Mode i is 640 * (i + 1) pixels wide and 360 * (i + 1) pixels high.
abbrev wider : ℕ → Option (ℕ × ℕ)
wider i = some (640 * (i + 1), 360 * (i + 1))

-- Of five modes the third is set.
choose_mode-Chosen_example :
    ((true ≡ true) × ((false ≡ true) × (choose_mode wider (λ i. false) true 5 1 ≡ not_set)))
    ⊎ First.Chosen wider (λ i. false) 0 5 0 (choose_mode wider (λ i. false) true 5 1)
choose_mode-Chosen_example = First.choose_mode-Chosen wider (λ i. false) true 5 1
