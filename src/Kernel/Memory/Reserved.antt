-- ===== src/Kernel/Memory/Reserved.antt =====
-- boot/kernel/kernel.c 54 to 70: the set-up of the page allocator.
use mathlib.Core.Path.{subst}
use osfort.Base.{
  ℕ, zero, suc, ◌+◌, ◌*◌, ◌/◌, ◌^◌, ◌%◌, ◌≤◌, ◌<◌, ◌≡◌, ◌≢◌, ◌⊎◌, inl, inr, refl, sym, ap, ◌∙◌,
  ◌==◌, ==_iff, true, u64, Bool-cases, arith,
}
use osfort.Base.Bits.{digit-zero, digit}
use osfort.Memory.{Mem, load8}
use osfort.Memory.Laws.{load_bytes_ext}
use osfort.Sys.Str.{memset}
use osfort.Sys.Str.Laws.{memset_lem, memset_frame}
use osfort.Bitmap.{Bitmap}
use osfort.Bitmap.Laws.{bit_of}
use osfort.Paging.{page_size, Pages, is_taken, lock_pages}
use osfort.Paging.Count.{count}
use osfort.Paging.Account.{marked, IsAccounted}
use osfort.Kernel.Memory.{
  MemoryDescriptor, MemoryMap, Totals, descriptor, conventional, scan_map, init_pages,
  reserve_region, reserve_from, entries, kernel_pages, reserve_memory,
}
use osfort.Kernel.Memory.Scan.{scan_map-IsScanned}
use osfort.Kernel.Memory.Marking.{
  Grown, Grown-refl, Grown-trans, Run, lock_pages-Grown, reserve_pages-Grown,
}

-- A cleared map marks nothing.
count-memset :
    (m : Mem) (b : Bitmap) (n : ℕ) → n ≤ b.size * 8 → count (memset m b.buffer 0 b.size) b n ≡ 0
unfolding count
count-memset m b zero h = refl
count-memset m b (suc n) h =
    let clear : load8 (memset m b.buffer 0 b.size) (b.buffer + n / 8) ≡ 0 =
      ground (arith, memset_lem m b.buffer 0 b.size (b.buffer + n / 8)) in
    let bit : bit_of (memset m b.buffer 0 b.size) b n ≡ 0 =
      ap (λ (t : ℕ). digit t (n % 8)) clear ∙ digit-zero (n % 8) in
    omega (arith, count-memset m b n (omega arith), bit)

-- The allocator's map, and the number of frames with a bit in it.
abbrev pub map_of : Mem → MemoryMap → Bitmap
map_of m mmap = (init_pages m (scan_map m mmap)).page_bitmap.bitmap

abbrev pub frames : Mem → MemoryMap → ℕ
frames m mmap = (map_of m mmap).size * 8

pub total-lt : (m : Mem) (mmap : MemoryMap) → (scan_map m mmap).total_mem_size < 2 ^ 64
total-lt m mmap = omega (arith, (scan_map-IsScanned m mmap).total)

init_pages-IsAccounted :
    (m : Mem) (t : Totals)
    → t.total_mem_size < 2 ^ 64
    → IsAccounted t.total_mem_size ((init_pages m t).page_bitmap.bitmap.size * 8) (init_pages m t)
unfolding init_pages
init_pages-IsAccounted m t h =
    let b : Bitmap = (init_pages m t).page_bitmap.bitmap in
    let none_marked : marked (init_pages m t) ≡ 0 = count-memset m b (b.size * 8) (omega arith) in
    record {
      extent = refl;
      sized = omega arith;
      taken = omega (arith, none_marked);
      whole = omega arith;
    }

-- The entries lie outside the allocator's map, and each region that is not conventional memory has
-- its frames in it.
pub record Fits (m : Mem) (mmap : MemoryMap) (buffer size frames : ℕ) : Type 0 where
  pub apart :
      (i : ℕ)
      → i < entries mmap
      → let at = u64 (mmap.map + u64 (mmap.desc_size * i)) in
        (at + 32 ≤ buffer) ⊎ (buffer + size ≤ at)
  pub inside :
      (i : ℕ)
      → i < entries mmap
      → (descriptor m mmap i).kind ≢ conventional
      → (descriptor m mmap i).phys_addr + (descriptor m mmap i).num_pages * page_size
        ≤ frames * page_size

-- The second loop reads the same entries as the first.
descriptor-same :
    (m m' : Mem) (mmap : MemoryMap) (i : ℕ)
    → (let at = u64 (mmap.map + u64 (mmap.desc_size * i)) in
        (x : ℕ) → at ≤ x → x < at + 32 → m x ≡ m' x)
    → descriptor m mmap i ≡ descriptor m' mmap i
unfolding descriptor
descriptor-same m m' mmap i same =
    let at = u64 (mmap.map + u64 (mmap.desc_size * i)) in
    cc (
      load_bytes_ext 4 m m' at (λ x p q. same x (omega arith) (omega arith)),
      load_bytes_ext 8 m m' (at + 8) (λ x p q. same x (omega arith) (omega arith)),
      load_bytes_ext 8 m m' (at + 24) (λ x p q. same x (omega arith) (omega arith)),
    )

reserve_region-Grown :
    {total frames : ℕ} (s : Pages) (d : MemoryDescriptor)
    → frames * page_size ≤ 2 ^ 64
    → (d.kind ≢ conventional → d.phys_addr + d.num_pages * page_size ≤ frames * page_size)
    → IsAccounted total frames s
    → Grown total frames s (reserve_region s d)
      × ((j : ℕ)
          → d.kind ≢ conventional
          → Run d.phys_addr d.num_pages j
          → is_taken (reserve_region s d) j ≡ true)
unfolding reserve_region
reserve_region-Grown s d whole inside acc = elim (Bool-cases (d.kind == conventional)) [
  | inl free ↦ rw free (Grown-refl acc, λ j other run. absurd (other ((==_iff _ _).0 free)))
  | inr other ↦
      let (grown, taken) =
        reserve_pages-Grown d.phys_addr d.num_pages whole (inside (λ e. ground (arith, e, other)))
          acc in
      rw other (grown, λ j _ run. taken j run)
]

module _ (m : Mem) (mmap : MemoryMap) (b : Bitmap) (total frames : ℕ)
    (fits : Fits m mmap b.buffer b.size frames) (whole : frames * page_size ≤ 2 ^ 64) where
  -- What the loop over the entries [i, i + k) makes of s.
  abbrev Secured : ℕ → ℕ → Pages → Pages → Type 0
  Secured k i s r =
      Grown total frames s r
      × ((n j : ℕ)
          → i ≤ n
          → n < i + k
          → (descriptor m mmap n).kind ≢ conventional
          → Run (descriptor m mmap n).phys_addr (descriptor m mmap n).num_pages j
          → is_taken r j ≡ true)

  reserve_from-Secured :
      (k i : ℕ) (s : Pages)
      → i + k ≤ entries mmap
      → s.page_bitmap.bitmap ≡ b
      → ((x : ℕ) → (x < b.buffer) ⊎ (b.buffer + b.size ≤ x) → s.mem x ≡ m x)
      → IsAccounted total frames s
      → Secured k i s (reserve_from k i mmap s)
  unfolding reserve_from
  reserve_from-Secured zero i s h same frame acc = (Grown-refl acc, λ n j p q. absurd (omega arith))
  reserve_from-Secured (suc k) i s h same frame acc =
      let d = descriptor m mmap i in
      let read : descriptor s.mem mmap i ≡ d =
        descriptor-same s.mem m mmap i
          (λ x p q. frame x (omega (arith, fits.apart i (omega arith)))) in
      let inside = fits.inside i (omega arith) in
      let (grown, taken) = reserve_region-Grown s d whole inside acc in
      let s' = reserve_region s d in
      let frame' : (x : ℕ) → (x < b.buffer) ⊎ (b.buffer + b.size ≤ x) → s'.mem x ≡ m x = λ x out.
        grown.frame x
          (subst (λ (c : Bitmap). (x < c.buffer) ⊎ (c.buffer + c.size ≤ x)) (sym same) out)
        ∙ frame x out in
      let (rest, later) =
        reserve_from-Secured k (i + 1) s' (omega arith) (grown.same_map ∙ same) frame'
          grown.accounted in
      let stepped : reserve_from (suc k) i mmap s ≡ reserve_from k (i + 1) mmap s' =
        ap (λ (e : MemoryDescriptor). reserve_from k (i + 1) mmap (reserve_region s e)) read in
      subst (Secured (suc k) i s) (sym stepped) (
        Grown-trans grown rest,
        λ n j p q other run. elim (Bool-cases (i == n)) [
          | inl e ↦
              let e' : i ≡ n = (==_iff i n).0 e in
              let other' : d.kind ≢ conventional =
                subst (λ (t : ℕ). (descriptor m mmap t).kind ≢ conventional) (sym e') other in
              let run' : Run d.phys_addr d.num_pages j =
                subst
                  (λ (t : ℕ). Run (descriptor m mmap t).phys_addr (descriptor m mmap t).num_pages j)
                  (sym e') run in
              rest.keeps j (omega (arith, run', inside other')) (taken j other' run')
          | inr ne ↦ later n j (ground arith) (omega arith) other run
        ],
      )

-- A machine for the set-up: the regions, the allocator's map and the kernel lie inside what the map
-- covers, all of it below 2 ^ 64, and the memory map lies outside the bytes of the allocator's map.
pub record IsRoomy (m : Mem) (mmap : MemoryMap) (kernel_start kernel_end : ℕ) : Type 0 where
  pub fits : Fits m mmap (map_of m mmap).buffer (map_of m mmap).size (frames m mmap)
  pub own :
      (map_of m mmap).buffer + ((map_of m mmap).size / page_size + 1) * page_size
      ≤ frames m mmap * page_size
  pub whole : frames m mmap * page_size ≤ 2 ^ 64
  pub kernel :
      kernel_start + kernel_pages kernel_start kernel_end * page_size ≤ frames m mmap * page_size

-- The counters are in step with the bits of the map, and taken are the frames of its own bytes, of
-- every region that is not conventional memory, and of the kernel.
pub record IsSecure (m : Mem) (mmap : MemoryMap) (kernel_start kernel_end : ℕ) (s : Pages)
    : Type 0 where
  pub accounted : IsAccounted (scan_map m mmap).total_mem_size (frames m mmap) s
  pub same_map : s.page_bitmap.bitmap ≡ map_of m mmap
  pub frame :
      (x : ℕ)
      → (x < (map_of m mmap).buffer) ⊎ ((map_of m mmap).buffer + (map_of m mmap).size ≤ x)
      → s.mem x ≡ m x
  pub own :
      (j : ℕ)
      → Run (map_of m mmap).buffer ((map_of m mmap).size / page_size + 1) j
      → is_taken s j ≡ true
  pub regions :
      (i j : ℕ)
      → i < entries mmap
      → (descriptor m mmap i).kind ≢ conventional
      → Run (descriptor m mmap i).phys_addr (descriptor m mmap i).num_pages j
      → is_taken s j ≡ true
  pub kernel :
      (j : ℕ) → Run kernel_start (kernel_pages kernel_start kernel_end) j → is_taken s j ≡ true

init_frame :
    (m : Mem) (mmap : MemoryMap) (x : ℕ)
    → (x < (map_of m mmap).buffer) ⊎ ((map_of m mmap).buffer + (map_of m mmap).size ≤ x)
    → (init_pages m (scan_map m mmap)).mem x ≡ m x
unfolding init_pages
init_frame m mmap x out = memset_frame m (map_of m mmap).buffer 0 (map_of m mmap).size x out

-- Where the regions, the allocator's map and the kernel lie inside what the map covers, below 2 ^ 64,
-- and the memory map outside the bytes of the allocator's map: after the set-up the counters are in
-- step with the bits, taken are the frames of the allocator's own map, of every region that is not
-- conventional memory, and of the kernel, and no byte outside of the allocator's map has changed.
pub reserve_memory-IsSecure :
    (m : Mem) (mmap : MemoryMap) (kernel_start kernel_end : ℕ)
    → IsRoomy m mmap kernel_start kernel_end
    → IsSecure m mmap kernel_start kernel_end (reserve_memory m mmap kernel_start kernel_end)
unfolding reserve_memory
reserve_memory-IsSecure m mmap kernel_start kernel_end room =
    let t = scan_map m mmap in
    let s = init_pages m t in
    let b : Bitmap = map_of m mmap in
    let (locked, own) =
      lock_pages-Grown b.buffer (b.size / page_size + 1) room.whole room.own
        (init_pages-IsAccounted m t (total-lt m mmap)) in
    let s1 = lock_pages s b.buffer (b.size / page_size + 1) in
    let (regions, taken) =
      reserve_from-Secured m mmap b t.total_mem_size (frames m mmap) room.fits room.whole
        (entries mmap) 0 s1 (omega arith) locked.same_map
        (λ x out. locked.frame x out ∙ init_frame m mmap x out) locked.accounted in
    let (last, kernel) =
      reserve_pages-Grown kernel_start (kernel_pages kernel_start kernel_end) room.whole room.kernel
        regions.accounted in
    let all = Grown-trans locked (Grown-trans regions last) in
    record {
      accounted = last.accounted;
      same_map = all.same_map;
      frame = λ x out. all.frame x out ∙ init_frame m mmap x out;
      own = λ j run.
          last.keeps j (omega (arith, run, room.own))
            (regions.keeps j (omega (arith, run, room.own)) (own j run));
      regions = λ i j h other run.
          last.keeps j (omega (arith, run, room.fits.inside i h other))
            (taken i j (omega arith) (omega arith) other run);
      kernel = kernel;
    }
