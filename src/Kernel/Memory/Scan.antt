-- ===== src/Kernel/Memory/Scan.antt =====
-- boot/kernel/kernel.c 36 to 52: the scan of the memory map.
use osfort.Base.{
  ℕ, zero, suc, ◌+◌, ◌≤◌, ◌<◌, ◌≡◌, ◌⊎◌, inl, inr, refl, ◌==◌, ==_iff, ltb, ltb→lt, u64, Bool-cases,
  arith,
}
use osfort.Memory.{Mem}
use osfort.Kernel.Memory.{
  MemoryDescriptor, MemoryMap, Totals, descriptor, bytes_of, conventional, scan_step, scan_from,
  scan_map, entries, no_totals,
}

-- The bytes of the entries below n, with no wrap-around.
unfoldable pub sum_below : Mem → MemoryMap → ℕ → ℕ
sum_below m mmap zero = 0
sum_below m mmap (suc n) = sum_below m mmap n + bytes_of (descriptor m mmap n)

-- What the variables say of the entries below n.
pub record IsScanned (m : Mem) (mmap : MemoryMap) (n : ℕ) (t : Totals) : Type 0 where
  pub total : t.total_mem_size ≡ u64 (sum_below m mmap n)
  pub largest :
      (i : ℕ)
      → i < n
      → (descriptor m mmap i).kind ≡ conventional
      → bytes_of (descriptor m mmap i) ≤ t.largest_desc_size
  pub found :
      (t.largest_desc_size ≡ 0)
      ⊎ ((i : ℕ) × ((i < n)
            × ((descriptor m mmap i).kind ≡ conventional)
            × ((descriptor m mmap i).phys_addr ≡ t.largest_desc)
            × (bytes_of (descriptor m mmap i) ≡ t.largest_desc_size)))

-- A bound that holds for the entries below n and for entry n.
below_suc : (P : ℕ → Type 0) (n : ℕ) → ((i : ℕ) → i < n → P i) → P n → (i : ℕ) → i < suc n → P i
below_suc P n before here i h = elim (Bool-cases (i == n)) [
  | inl e ↦ rw ((==_iff i n).0 e) here
  | inr ne ↦ before i (ground arith)
]

module _ (m : Mem) (mmap : MemoryMap) (n : ℕ) (t : Totals) (scanned : IsScanned m mmap n t) where
  abbrev d : MemoryDescriptor
  d = descriptor m mmap n

  abbrev Bounded : ℕ → ℕ → Type 0
  Bounded size i = (descriptor m mmap i).kind ≡ conventional → bytes_of (descriptor m mmap i) ≤ size

  -- The entry raises the largest size, or it does not.
  larger :
      d.kind ≡ conventional
      → t.largest_desc_size < bytes_of d
      → IsScanned m mmap (suc n) (record {
        largest_desc = d.phys_addr;
        largest_desc_size = bytes_of d;
        total_mem_size = u64 (t.total_mem_size + bytes_of d);
      })
  unfolding sum_below
  larger fits more = record {
    total = omega (arith, scanned.total);
    largest =
        below_suc (Bounded (bytes_of d)) n (λ i h c. omega (arith, scanned.largest i h c, more))
          (λ c. omega arith);
    found = inr (n, (omega arith, fits, refl, refl));
  }

  kept :
      (d.kind ≡ conventional → bytes_of d ≤ t.largest_desc_size)
      → IsScanned m mmap (suc n) (record t { total_mem_size = u64 (t.total_mem_size + bytes_of d) })
  unfolding sum_below
  kept bound = record {
    total = omega (arith, scanned.total);
    largest = below_suc (Bounded t.largest_desc_size) n scanned.largest bound;
    found = elim scanned.found [
      | inl none_yet ↦ inl none_yet
      | inr (i, (h, c, a, b)) ↦ inr (i, (omega arith, c, a, b))
    ];
  }

  scan_step-IsScanned : IsScanned m mmap (suc n) (scan_step t d)
  unfolding scan_step
  scan_step-IsScanned = elim (Bool-cases (d.kind == conventional)) [
    | inl fits ↦ elim (Bool-cases (ltb t.largest_desc_size (bytes_of d))) [
      | inl more ↦ rw fits (rw more (larger ((==_iff _ _).0 fits) (ltb→lt _ _ more)))
      | inr less ↦ rw fits (rw less (kept (λ c. ground arith)))
    ]
    | inr other ↦ rw other (kept (λ c. ground arith))
  ]

scan_from-IsScanned :
    (k i : ℕ) (m : Mem) (mmap : MemoryMap) (t : Totals)
    → IsScanned m mmap i t
    → IsScanned m mmap (i + k) (scan_from k i m mmap t)
unfolding scan_from
scan_from-IsScanned zero i m mmap t scanned = let e : i + 0 ≡ i = omega arith in rw e scanned
scan_from-IsScanned (suc k) i m mmap t scanned =
    let e : i + suc k ≡ suc i + k = omega arith in
    let e' : i + 1 ≡ suc i = omega arith in
    rw (e, e') (scan_from-IsScanned k (suc i) m mmap _ (scan_step-IsScanned m mmap i t scanned))

-- The first loop over the whole memory map: the total is the sum of all regions modulo 2 ^ 64, no
-- region of conventional memory is larger than the one found, and that one is a region of
-- conventional memory with its address, unless its size is 0.
pub scan_map-IsScanned :
    (m : Mem) (mmap : MemoryMap) → IsScanned m mmap (entries mmap) (scan_map m mmap)
unfolding scan_map sum_below
scan_map-IsScanned m mmap =
    let e : 0 + entries mmap ≡ entries mmap = omega arith in
    rw e at (
      scan_from-IsScanned (entries mmap) 0 m mmap no_totals
        (record { total = refl; largest = λ i h c. absurd (omega arith); found = inl refl }))
