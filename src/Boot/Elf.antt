-- ===== src/Boot/Elf.antt =====
-- How the boot loader places the kernel: bootloader.c 389 to 445. The file lies at `kernel`. The
-- firmware's AllocatePages and its EFI_ERROR are parameters.
pub mod Loop
pub mod Segments
pub mod Whole
use osfort.Base.{
  ℕ, zero, suc, ◌+◌, ◌-◌, ◌*◌, ◌/◌, ◌%◌, ◌^◌, Option, none, some, Bool, ◌||◌, ◌==◌, not,
  if◌then◌else◌, ltb, u64,
}
use osfort.Memory.{Mem, load8, store8, load32, load64, load_bytes}
use osfort.Boot.Guid.{memcmp}

-- The fields of Elf64_Ehdr.
abbrev pub e_entry : Mem → ℕ → ℕ
e_entry m kernel = load64 m (kernel + 24)

abbrev pub e_phoff : Mem → ℕ → ℕ
e_phoff m kernel = load64 m (kernel + 32)

abbrev pub e_phentsize : Mem → ℕ → ℕ
e_phentsize m kernel = load_bytes 2 m (kernel + 54)

abbrev pub e_phnum : Mem → ℕ → ℕ
e_phnum m kernel = load_bytes 2 m (kernel + 56)

-- The test of the header, where the four bytes of ELFMAG lie at elfmag.
unfoldable pub is_invalid : Mem → ℕ → ℕ → Bool
is_invalid m kernel elfmag =
    not (memcmp m kernel elfmag 4)
    || not (load8 m (kernel + 4) == 2)
    || not (load8 m (kernel + 5) == 1)
    || not (load_bytes 2 m (kernel + 16) == 2)
    || not (load_bytes 2 m (kernel + 18) == 62)
    || not (load32 m (kernel + 20) == 1)

-- Status after the test: `!EFI_SUCCESS` is the int 1.
unfoldable pub header_status : Mem → ℕ → ℕ → ℕ → ℕ
header_status m kernel elfmag status = if is_invalid m kernel elfmag then 1 else status

-- `Kernel` is refused.
abbrev pub is_refused : (ℕ → Bool) → Mem → ℕ → ℕ → ℕ → Bool
is_refused efi_error m kernel elfmag status = efi_error (header_status m kernel elfmag status)

-- The fields of Elf64_Phdr.
abbrev pub p_type : Mem → ℕ → ℕ
p_type m phdr = load32 m phdr

abbrev pub p_offset : Mem → ℕ → ℕ
p_offset m phdr = load64 m (phdr + 8)

abbrev pub p_paddr : Mem → ℕ → ℕ
p_paddr m phdr = load64 m (phdr + 24)

abbrev pub p_filesz : Mem → ℕ → ℕ
p_filesz m phdr = load64 m (phdr + 32)

abbrev pub p_memsz : Mem → ℕ → ℕ
p_memsz m phdr = load64 m (phdr + 40)

abbrev pub pt_load : ℕ
pt_load = 1

abbrev pub pages_of : ℕ → ℕ
pages_of memsz = u64 (memsz + (0x1000 - 1)) / 0x1000

-- `((UINT8*)to)[i] = Kernel[from + i]`, from byte i on with k bytes left.
unfoldable pub copy_from : ℕ → ℕ → ℕ → ℕ → Mem → Mem
copy_from zero i to from m = m
copy_from (suc k) i to from m =
    copy_from k (i + 1) to from (store8 m (u64 (to + i)) (load8 m (u64 (from + i))))

-- `((UINT8*)to)[i] = Kernel[phdr->p_offset + i]`, from byte i on with k bytes left: the header is read
-- again for each byte.
unfoldable pub copy_segment : ℕ → ℕ → ℕ → ℕ → ℕ → Mem → Mem
copy_segment zero i to kernel phdr m = m
copy_segment (suc k) i to kernel phdr m =
    copy_segment k (i + 1) to kernel phdr
      (store8 m (u64 (to + i)) (load8 m (u64 (kernel + p_offset m phdr + i))))

module _ (allocate_pages : Mem → ℕ → ℕ → Option Mem) where
  -- One program header. The loader stops where the firmware has no such pages: `none`.
  unfoldable pub load_segment : ℕ → ℕ → Mem → Option Mem
  load_segment kernel phdr m =
      if p_type m phdr == pt_load
      then (elim (allocate_pages m (p_paddr m phdr) (pages_of (p_memsz m phdr)))
          as (λ _. Option Mem) [
            | none ↦ none
            | some m' ↦ some (copy_segment (p_filesz m' phdr) 0 (p_paddr m phdr) kernel phdr m')
          ])
      else some m

  -- The loop over the headers with k headers left.
  unfoldable pub load_from : ℕ → ℕ → ℕ → ℕ → Mem → Option Mem
  load_from zero kernel phdr size m = some m
  load_from (suc k) kernel phdr size m = elim (load_segment kernel phdr m) as (λ _. Option Mem) [
    | none ↦ none
    | some m' ↦ load_from k kernel (phdr + size) size m'
  ]

  -- The program headers are copied to the buffer, each segment is loaded, and the result is the memory
  -- and the address to start at. The size of the headers is a product of type `int`, which C leaves
  -- undefined from 2 ^ 31 on: `none`.
  unfoldable pub load_kernel : ℕ → ℕ → Mem → Option (Mem × ℕ)
  load_kernel kernel buffer m =
      let size = e_phnum m kernel * e_phentsize m kernel in
      let count = if e_phentsize m kernel == 0 then 0 else e_phnum m kernel in
      let m' = copy_from size 0 buffer (u64 (kernel + e_phoff m kernel)) m in
      let loaded = load_from count kernel buffer (e_phentsize m kernel) m' in
      if ltb size (2 ^ 31)
      then (elim loaded as (λ _. Option (Mem × ℕ)) [
        | none ↦ none
        | some r ↦ some (r, e_entry m kernel)
      ])
      else none
