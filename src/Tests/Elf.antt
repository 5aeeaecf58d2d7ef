-- ===== src/Tests/Elf.antt =====
-- The loading of a kernel with one segment.
use mathlib.Core.Path.{subst}
use mathlib.Core.Option.{some-injective}
use osfort.Base.{ℕ, ◌+◌, ◌*◌, ◌<◌, ◌≡◌, refl, sym, ap, inl, some, ◌==◌, if◌then◌else◌, arith}
use osfort.Memory.{Mem, load8, store8, load_bytes}
use osfort.Boot.Elf.{
  e_entry, e_phoff, e_phentsize, e_phnum, p_offset, p_paddr, p_filesz, p_memsz, copy_from,
  load_kernel,
}
use osfort.Boot.Elf.Segments.{IsPlaceable}
use osfort.Boot.Elf.Loop.{IsLoadable, IsLoadedTo}
use osfort.Boot.Elf.Whole.{HasHeaders, header_count, with_headers, load_kernel-IsLoaded}

-- A file at 0x1000 with one program header, at 0x40 of it: four bytes at 0x78 for address 0x10000.
abbrev file : Mem
file x =
    if x == 0x1019
    then 0x12
    else if x == 0x1020
    then 0x40
    else if x == 0x1036
    then 56
    else if x == 0x1038
    then 1
    else if x == 0x1040
    then 1
    else if x == 0x1048
    then 0x78
    else if x == 0x105a
    then 1
    else if x == 0x1060
    then 4
    else if x == 0x1068
    then 8
    else 0

-- With the header copied to 0x3000.
abbrev copied : Mem
copied = with_headers file 0x1000 0x3000

header_fields :
    (e_phoff file 0x1000 ≡ 0x40) × (e_phentsize file 0x1000 ≡ 56) × (e_phnum file 0x1000 ≡ 1)
unfolding load_bytes load8
header_fields = (refl, refl, refl)

segment_fields :
    (p_offset copied 0x3000 ≡ 0x78)
    × (p_paddr copied 0x3000 ≡ 0x10000)
    × (p_filesz copied 0x3000 ≡ 4)
    × (p_memsz copied 0x3000 ≡ 8)
unfolding load_bytes load8 copy_from store8
segment_fields = (refl, refl, refl, refl)

placeable : IsPlaceable copied 0x1000 0x3000
placeable =
    let (offset, paddr, filesz, memsz) = segment_fields in
    record {
      fits = rw (paddr, memsz) (omega arith);
      enough = rw (filesz, memsz) (omega arith);
      file = rw (offset, filesz) (omega arith);
      file_apart = rw (offset, filesz, paddr) (inl (omega arith));
      header_apart = rw (paddr) (inl (omega arith));
    }

-- One header asks for nothing but its own.
loadable : (size : ℕ) → IsLoadable copied 0x1000 0x3000 size 1
loadable size =
    let first : (i : ℕ) → i < 1 → 0x3000 ≡ 0x3000 + i * size =
      λ i h. let e : i ≡ 0 = omega (arith, h) in rw e (omega arith) in
    record {
      placeable = λ i loads. subst (λ t. IsPlaceable copied 0x1000 t) (first i loads.0) placeable;
      headers = λ i j h loads. rw (← (first i h), ← (first j loads.0)) placeable.header_apart;
      files =
          λ i j loads loads'. rw (← (first i loads.0), ← (first j loads'.0)) placeable.file_apart;
      segments = λ i j ne loads loads'. absurd (ne (omega (arith, loads.0, loads'.0)));
    }

load_kernel-IsLoaded_example :
    (r : Mem) × (m' : Mem) × ((load_kernel (λ m a n. some m) 0x1000 0x3000 file
        ≡ some (r, e_entry file 0x1000))
      × HasHeaders file 0x1000 0x3000 m'
      × IsLoadedTo m' 0x1000 0x3000
          (e_phentsize file 0x1000)
          (header_count file 0x1000)
          (header_count file 0x1000)
          r)
unfolding load_bytes load8
load_kernel-IsLoaded_example =
    load_kernel-IsLoaded (λ m a n. some m) file 0x1000 0x3000
      (record {
        narrow = omega arith;
        from = omega arith;
        to = omega arith;
        apart = inl (omega arith);
      })
      (loadable 56) (λ m m' a n y e out. ap (λ t. t y) (sym (some-injective m m' e)))
      (λ i m loads. (m, refl))
