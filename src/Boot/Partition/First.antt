-- ===== src/Boot/Partition/First.antt =====
-- bootloader.c 181 to 192: the search for the partition.
use osfort.Base.{
  ℕ, zero, suc, ◌+◌, ◌*◌, ◌≤◌, ◌<◌, ◌≡◌, ◌⊎◌, inl, inr, refl, ap, ◌∙◌, sym, Option, none, some,
  Bool, true, false, ◌&&◌, not, ◌==◌, Bool-cases, u64, arith,
}
use osfort.Base.Arith.{eq-or-later}
use osfort.Memory.{Mem}
use osfort.Memory.Laws.{load_bytes_ext}
use osfort.Boot.Partition.{part_start_lba, magic, find_partition}

-- The documented behaviour of ReadBlocks: whether the blocks from l on can be read is a matter of the
-- device; no byte outside the buffer changes; and where the read succeeds, the superblock's magic is
-- what the device has there.
abbrev pub Device : (Mem → ℕ → ℕ → ℕ → Mem × Bool) → (ℕ → Bool) → (ℕ → ℕ) → Type 0
Device read_blocks fails magic_of =
    (m : Mem) (l buffer : ℕ)
    → ((read_blocks m l 512 buffer).1 ≡ fails l)
      × ((y : ℕ) → (y < buffer) ⊎ (buffer + 512 ≤ y) → (read_blocks m l 512 buffer).0 y ≡ m y)
      × (fails l ≡ false → magic (read_blocks m l 512 buffer).0 buffer ≡ magic_of l)

module _ (fails : ℕ → Bool) (magic_of : ℕ → ℕ) (part_tbl : ℕ) where
  -- Entry i names a partition whose superblock can be read and has the magic number.
  abbrev pub is_ext2 : Mem → ℕ → Bool
  is_ext2 m i =
      let l = u64 (part_start_lba m part_tbl i + 2) in not (fails l) && magic_of l == 0xef53

  -- The first of the entries [i, hi), or none of them.
  abbrev pub Chosen : Mem → ℕ → ℕ → Option ℕ → Type 0
  Chosen m i hi r =
      ((n : ℕ) × ((i ≤ n)
          × (n < hi)
          × (is_ext2 m n ≡ true)
          × ((j : ℕ) → i ≤ j → j < n → is_ext2 m j ≡ false)
          × (r ≡ some (part_start_lba m part_tbl n))))
      ⊎ (((j : ℕ) → i ≤ j → j < hi → is_ext2 m j ≡ false) × (r ≡ none))

  -- The entry at hand is none, and the others have a choice.
  Chosen-later :
      (m : Mem) (i hi : ℕ) (r : Option ℕ)
      → is_ext2 m i ≡ false
      → Chosen m (i + 1) hi r
      → Chosen m i hi r
  Chosen-later m i hi r not_here (inl (n, (p, q, it, before, e))) = inl (
    n,
    (
      omega arith,
      q,
      it,
      λ j p' q'. elim (eq-or-later i j p') [
        | inl same ↦ rw (← same) not_here
        | inr later ↦ before j later q'
      ],
      e,
    ),
  )
  Chosen-later m i hi r not_here (inr (none_is, e)) = inr (
    λ j p' q'. elim (eq-or-later i j p') [
      | inl same ↦ rw (← same) not_here
      | inr later ↦ none_is j later q'
    ],
    e,
  )

module _ (read_blocks : Mem → ℕ → ℕ → ℕ → Mem × Bool) (fails : ℕ → Bool) (magic_of : ℕ → ℕ)
    (device : Device read_blocks fails magic_of) (part_tbl primary_part number : ℕ)
    (apart : (part_tbl + 128 * number ≤ primary_part) ⊎ (primary_part + 512 ≤ part_tbl)) where
  -- The partition table is as in m0.
  abbrev SameTable : Mem → Mem → Type 0
  SameTable m0 m = (x : ℕ) → part_tbl ≤ x → x < part_tbl + 128 * number → m x ≡ m0 x

  same_start :
      (m0 m : Mem) (i : ℕ)
      → SameTable m0 m
      → i < number
      → part_start_lba m part_tbl i ≡ part_start_lba m0 part_tbl i
  same_start m0 m i same h =
      load_bytes_ext 8 m m0 (part_tbl + 128 * i + 32) (λ x p q. same x (omega arith) (omega arith))

  find_rest-Chosen :
      (k i : ℕ) (m0 m : Mem)
      → i + k ≡ number
      → SameTable m0 m
      → Chosen fails magic_of part_tbl m0 i number
          (find_partition read_blocks k i part_tbl primary_part m).1
  unfolding find_partition
  find_rest-Chosen zero i m0 m e same = inr (λ j p q. absurd (omega arith), refl)
  find_rest-Chosen (suc k) i m0 m e same =
      let start = same_start m0 m i same (omega arith) in
      let l = u64 (part_start_lba m part_tbl i + 2) in
      let l0 : l ≡ u64 (part_start_lba m0 part_tbl i + 2) = ap (λ (t : ℕ). u64 (t + 2)) start in
      let (failed, frame, content) = device m l primary_part in
      let m' = (read_blocks m l 512 primary_part).0 in
      let same' : SameTable m0 m' = λ x p q. frame x (omega (arith, apart)) ∙ same x p q in
      let rest = find_rest-Chosen k (i + 1) m0 m' (omega arith) same' in
      elim (Bool-cases (fails l)) [
        | inl bad ↦
            let bad0 = sym (ap fails l0) ∙ bad in
            rw (failed, bad)
              (Chosen-later fails magic_of part_tbl m0 i number _ (rw bad0 refl) rest)
        | inr good ↦
            let good0 = sym (ap fails l0) ∙ good in
            let read : magic m' primary_part ≡ magic_of l = content good in
            let read0 : magic m' primary_part ≡ magic_of (u64 (part_start_lba m0 part_tbl i + 2)) =
              read ∙ ap magic_of l0 in
            elim (Bool-cases (magic m' primary_part == 0xef53)) [
              | inl here ↦
                  let here0 = ap (λ (t : ℕ). t == 0xef53) (sym read0) ∙ here in
                  rw (failed, good, here)
                    (inl (
                      i,
                      (
                        omega arith,
                        omega arith,
                        rw (good0, here0) refl,
                        λ j p q. absurd (omega arith),
                        ap some (same_start m0 m' i same' (omega arith)),
                      ),
                    ))
              | inr other ↦
                  let other0 = ap (λ (t : ℕ). t == 0xef53) (sym read0) ∙ other in
                  rw (failed, good, other)
                    (Chosen-later fails magic_of part_tbl m0 i number _ (rw (good0, other0) refl)
                      rest)
            ]
      ]

-- For a device as documented and a buffer that the partition table does not meet: the search ends with
-- the first block of the first partition whose superblock can be read and has the magic number, or
-- with none where no entry of the table names one.
pub find_partition-Chosen :
    (read_blocks : Mem → ℕ → ℕ → ℕ → Mem × Bool) (fails : ℕ → Bool) (magic_of : ℕ → ℕ) (m : Mem)
    (part_tbl primary_part number : ℕ)
    → Device read_blocks fails magic_of
    → (part_tbl + 128 * number ≤ primary_part) ⊎ (primary_part + 512 ≤ part_tbl)
    → Chosen fails magic_of part_tbl m 0 number
        (find_partition read_blocks number 0 part_tbl primary_part m).1
find_partition-Chosen read_blocks fails magic_of m part_tbl primary_part number device apart =
    find_rest-Chosen read_blocks fails magic_of device part_tbl primary_part number apart number 0 m
      m (omega arith) (λ x p q. refl)
