-- ===== src/Boot/Elf/Whole.antt =====
-- bootloader.c 409 to 445: the headers' copy and the loop over it.
use osfort.Base.{
  ℕ, ◌+◌, ◌*◌, ◌^◌, ◌≤◌, ◌<◌, ◌≡◌, ◌⊎◌, refl, Option, some, u64, ◌==◌, if◌then◌else◌, lt→ltb, arith,
}
use osfort.Memory.{Mem, load8}
use osfort.Boot.Elf.{e_entry, e_phoff, e_phentsize, e_phnum, copy_from, load_kernel, load_from}
use osfort.Boot.Elf.Segments.{copy_from_frame, copy_from-load8}
use osfort.Boot.Elf.Loop.{IsLoadable, FramesPages, Grants, IsLoadedTo, load_from-IsLoaded}

abbrev pub header_count : Mem → ℕ → ℕ
header_count m kernel = if e_phentsize m kernel == 0 then 0 else e_phnum m kernel

abbrev pub headers_size : Mem → ℕ → ℕ
headers_size m kernel = e_phnum m kernel * e_phentsize m kernel

-- The program headers of the file take less than 2 ^ 31 bytes, and they and their copy do not wrap and
-- do not meet.
pub record IsCopyable (m : Mem) (kernel buffer : ℕ) : Type 0 where
  pub narrow : headers_size m kernel < 2 ^ 31
  pub from : kernel + e_phoff m kernel + headers_size m kernel < 2 ^ 64
  pub to : buffer + headers_size m kernel ≤ 2 ^ 64
  pub apart :
      (kernel + e_phoff m kernel + headers_size m kernel ≤ buffer)
      ⊎ (buffer + headers_size m kernel ≤ kernel + e_phoff m kernel)

-- m' is m with the program headers at `buffer`.
abbrev pub HasHeaders : Mem → ℕ → ℕ → Mem → Type 0
HasHeaders m kernel buffer m' =
    ((x : ℕ)
      → x < headers_size m kernel
      → load8 m' (buffer + x) ≡ load8 m (kernel + e_phoff m kernel + x))
    × ((y : ℕ) → (y < buffer) ⊎ (buffer + headers_size m kernel ≤ y) → m' y ≡ m y)

abbrev pub with_headers : Mem → ℕ → ℕ → Mem
with_headers m kernel buffer =
    copy_from (headers_size m kernel) 0 buffer (u64 (kernel + e_phoff m kernel)) m

with_headers-HasHeaders :
    (m : Mem) (kernel buffer : ℕ)
    → IsCopyable m kernel buffer
    → HasHeaders m kernel buffer (with_headers m kernel buffer)
with_headers-HasHeaders m kernel buffer h =
    let exact : u64 (kernel + e_phoff m kernel) ≡ kernel + e_phoff m kernel =
      omega (arith, h.from) in
    let size = headers_size m kernel in
    rw exact (
      λ x p.
          copy_from-load8 size 0 buffer (kernel + e_phoff m kernel) m x (omega (arith, h.to))
            (omega (arith, h.from)) (omega (arith, h.apart)) (omega arith) (omega arith),
      λ y out.
          copy_from_frame size 0 buffer (kernel + e_phoff m kernel) m y (omega (arith, h.to))
            (omega (arith, out)),
    )

load_kernel-some :
    (allocate_pages : Mem → ℕ → ℕ → Option Mem) (kernel buffer : ℕ) (m r : Mem)
    → headers_size m kernel < 2 ^ 31
    → load_from allocate_pages
        (header_count m kernel)
        kernel
        buffer
        (e_phentsize m kernel)
        (with_headers m kernel buffer)
      ≡ some r
    → load_kernel allocate_pages kernel buffer m ≡ some (r, e_entry m kernel)
unfolding load_kernel
load_kernel-some allocate_pages kernel buffer m r narrow e =
    rw (load_kernel, lt→ltb (headers_size m kernel) (2 ^ 31) narrow, e) refl

-- Where the program headers can be copied, the segments that the copied headers ask for are loadable,
-- and AllocatePages grants them: load_kernel ends with the address to start at from the file's header
-- and a memory in which every segment's part of the file is in its place; outside of the segments'
-- pages it is the memory that holds the copy of the headers and is otherwise as it was.
pub load_kernel-IsLoaded :
    (allocate_pages : Mem → ℕ → ℕ → Option Mem) (m : Mem) (kernel buffer : ℕ)
    → IsCopyable m kernel buffer
    → IsLoadable
        (with_headers m kernel buffer)
        kernel
        buffer
        (e_phentsize m kernel)
        (header_count m kernel)
    → FramesPages allocate_pages
    → Grants allocate_pages
        (with_headers m kernel buffer)
        buffer
        (e_phentsize m kernel)
        (header_count m kernel)
    → (r : Mem) × (m' : Mem) × ((load_kernel allocate_pages kernel buffer m
          ≡ some (r, e_entry m kernel))
        × HasHeaders m kernel buffer m'
        × IsLoadedTo m' kernel buffer
            (e_phentsize m kernel)
            (header_count m kernel)
            (header_count m kernel)
            r)
load_kernel-IsLoaded allocate_pages m kernel buffer copyable loadable frames grants =
    let loaded =
      load_from-IsLoaded (with_headers m kernel buffer) kernel buffer (e_phentsize m kernel)
        (header_count m kernel) allocate_pages loadable frames grants in
    (
      loaded.0,
      with_headers m kernel buffer,
      (
        load_kernel-some allocate_pages kernel buffer m loaded.0 copyable.narrow loaded.1.0,
        with_headers-HasHeaders m kernel buffer copyable,
        loaded.1.1,
      ),
    )
