-- ===== src/Tests/Kernel.antt =====
-- The set-up of the kernel at concrete machines.
use osfort.Base.{
  u64, ◌*◌, ◌+◌, ◌⊎◌, ℕ, zero, suc, ◌≤◌, ◌<◌, ◌≡◌, ◌≢◌, ◌==◌, refl, true, none, some, if◌then◌else◌,
  inl, arith,
}
use osfort.Memory.{Mem, load_bytes, load8}
use osfort.Paging.{page_size}
use mathlib.Core.Option
use osfort.Base.Bits.{digit}
use osfort.Machine.{Msrs, rdmsr}
use osfort.Kernel.Gdt.{segment, is_code, is_data}
use osfort.Kernel.Syscall.{efer, star, lstar, fmask, set_syscall}
use osfort.Kernel.Syscall.Selectors.{
  syscall_cs, syscall_ss, sysretq_cs, sysretq_ss, set_syscall-segment,
}
use osfort.Kernel.Memory.{
  MemoryMap, descriptor, scan_from, scan_step, init_pages, conventional, scan_map, entries,
  reserve_memory,
}
use osfort.Kernel.Memory.Scan.{IsScanned, scan_map-IsScanned}
use osfort.Kernel.Memory.Reserved.{Fits, IsRoomy, IsSecure, map_of, reserve_memory-IsSecure}

-- A map at 0x100 of two entries of 48 bytes: eight free pages from 0x4000 on, and four others at 0.
abbrev firmware : Mem
firmware x =
    if x == 0x100
    then 7
    else if x == 0x109
    then 0x40
    else if x == 0x118
    then 8
    else if x == 0x148
    then 4
    else 0

abbrev mmap : MemoryMap
mmap = record { map = 0x100; size = 96; desc_size = 48 }

mapped : map_of firmware mmap ≡ record { buffer = 0x4000; size = 2 }
unfolding scan_map scan_from scan_step descriptor load_bytes load8 init_pages
mapped = refl

below_two : (P : ℕ → Type 0) → P 0 → P 1 → (i : ℕ) → i < 2 → P i
below_two P p q zero h = p
below_two P p q (suc zero) h = q
below_two P p q (suc (suc i)) h = absurd (omega arith)

fits : Fits firmware mmap 0x4000 2 16
unfolding descriptor load_bytes load8
fits = record {
  apart =
      below_two (λ i. let at = u64 (0x100 + u64 (48 * i)) in (at + 32 ≤ 0x4000) ⊎ (0x4000 + 2 ≤ at))
        (inl (omega arith)) (inl (omega arith));
  inside =
      below_two
        (λ i.
          (descriptor firmware mmap i).kind ≢ conventional
          → (descriptor firmware mmap i).phys_addr
              + (descriptor firmware mmap i).num_pages * page_size
            ≤ 16 * page_size)
        (λ other. absurd (other refl)) (λ other. omega arith);
}

room : IsRoomy firmware mmap 0x5000 0x5800
room = record {
  fits = rw mapped fits;
  own = rw mapped (omega arith);
  whole = rw mapped (omega arith);
  kernel = rw mapped (omega arith);
}

scan_map-IsScanned_example : IsScanned firmware mmap (entries mmap) (scan_map firmware mmap)
scan_map-IsScanned_example = scan_map-IsScanned firmware mmap

reserve_memory-IsSecure_example :
    IsSecure firmware mmap 0x5000 0x5800 (reserve_memory firmware mmap 0x5000 0x5800)
reserve_memory-IsSecure_example = reserve_memory-IsSecure firmware mmap 0x5000 0x5800 room

abbrev old_msrs : Msrs
old_msrs r = 0x500

set_syscall-segment_example :
    let r = rdmsr (set_syscall old_msrs 0x203000) in
    (digit (r efer) 0 ≡ 1)
    × (r lstar ≡ 0x203000)
    × (digit (r fmask) 9 ≡ 1)
    × (Option.map (is_code 0) (segment (syscall_cs (r star))) ≡ some true)
    × (Option.map (is_data 0) (segment (syscall_ss (r star))) ≡ some true)
    × (Option.map (is_data 3) (segment (sysretq_ss (r star))) ≡ some true)
    × (segment (sysretq_cs (r star)) ≡ none)
set_syscall-segment_example = set_syscall-segment old_msrs 0x203000 (omega arith)
