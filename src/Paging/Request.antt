-- ===== src/Paging/Request.antt =====
-- req_page: the first frame that the map does not mark.
use osfort.Base.{
  ℕ, zero, suc, ◌+◌, ◌*◌, ◌/◌, ◌%◌, ◌^◌, ◌≤◌, ◌<◌, ◌≡◌, ◌⊎◌, inl, inr, refl, true, false, ◌==◌,
  ==_iff, arith, Bool-cases, u64,
}
use osfort.Base.Bits.{digit-lt}
use osfort.Memory.{load8}
use osfort.Paging.Count.{count}
use osfort.Paging.Account.{marked}
use osfort.Bitmap.Laws.{IsSized, get_bitmap-bit_of}
use osfort.Paging.{page_size, Pages, is_taken, lock_page, req_page_from, req_page}

abbrev pub frames_of : Pages → ℕ
frames_of s = s.page_bitmap.bitmap.size * 8

-- Frame i is the first of [lo, hi) that is not taken.
pub record IsFirstFree (s : Pages) (lo hi i : ℕ) : Type 0 where
  pub above : lo ≤ i
  pub below : i < hi
  pub clear : is_taken s i ≡ false
  pub first : (j : ℕ) → lo ≤ j → j < i → is_taken s j ≡ true

-- Either a first free frame is locked and its address returned, or all are taken, nothing changes
-- and the result is NULL.
abbrev pub Requested : Pages → ℕ → ℕ → Pages × ℕ → Type 0
Requested s lo hi r =
    ((i : ℕ) × IsFirstFree s lo hi i × (r ≡ (lock_page s (i * page_size), i * page_size)))
    ⊎ (((j : ℕ) → lo ≤ j → j < hi → is_taken s j ≡ true) × (r ≡ (s, 0)))

taken_from :
    (s : Pages) (i j : ℕ)
    → is_taken s i ≡ true
    → i ≤ j
    → (i + 1 ≤ j → is_taken s j ≡ true)
    → is_taken s j ≡ true
taken_from s i j busy p later = elim (Bool-cases (i == j)) [
  | inl e ↦ rw (← (==_iff i j).0 e) busy
  | inr n ↦ later (ground arith)
]

req_page_from-Requested :
    (k i hi : ℕ) (s : Pages)
    → i + k ≡ hi
    → hi * page_size ≤ 2 ^ 64
    → Requested s i hi (req_page_from k i s)
unfolding req_page_from
req_page_from-Requested zero i hi s e w = inr (λ j p q. absurd (omega arith), refl)
req_page_from-Requested (suc k) i hi s e w = elim (Bool-cases (is_taken s i)) [
  | inr free ↦
      let fits : u64 (i * page_size) ≡ i * page_size = omega arith in
      inl (
        i,
        record {
          above = omega arith;
          below = omega arith;
          clear = free;
          first = λ j p q. absurd (omega arith);
        },
        rw (free, fits) refl,
      )
  | inl busy ↦ rw busy (elim (req_page_from-Requested k (i + 1) hi s (omega arith) w) [
    | inl (f, found, r) ↦ inl (
      f,
      record {
        above = omega (arith, found.above);
        below = found.below;
        clear = found.clear;
        first = λ j p q. taken_from s i j busy p (λ p'. found.first j p' q);
      },
      r,
    )
    | inr (all, r) ↦ inr (λ j p q. taken_from s i j busy p (λ p'. all j p' q), r)
  ])
]

-- req_page over a map whose frames lie below 2 ^ 64: it locks the first frame that is not taken and
-- returns its address, or, where all are taken, changes nothing and returns NULL.
pub req_page-Requested :
    (s : Pages) → frames_of s * page_size ≤ 2 ^ 64 → Requested s 0 (frames_of s) (req_page s)
unfolding req_page
req_page-Requested s w =
    let fits : u64 (frames_of s) ≡ frames_of s = omega arith in
    rw fits (req_page_from-Requested (frames_of s) 0 (frames_of s) s (omega arith) w)

-- A map whose first n bits are all set counts n of them.
count_full :
    (s : Pages) (n : ℕ)
    → IsSized s.page_bitmap.bitmap
    → n ≤ frames_of s
    → ((j : ℕ) → j < n → is_taken s j ≡ true)
    → count s.mem s.page_bitmap.bitmap n ≡ n
unfolding count
count_full s zero sized h all = refl
count_full s (suc n) sized h all = ground (
  arith,
  digit-lt (load8 s.mem (s.page_bitmap.bitmap.buffer + n / 8)) (n % 8),
  get_bitmap-bit_of s.mem s.page_bitmap.bitmap n sized,
  all n (omega arith),
  count_full s n sized (omega arith) (λ j p. all j (omega arith)),
)

-- Where fewer frames are marked than the map has, req_page does not fail.
pub req_page-found :
    (s : Pages)
    → frames_of s * page_size ≤ 2 ^ 64
    → marked s < frames_of s
    → (i : ℕ) × IsFirstFree s 0 (frames_of s) i
      × (req_page s ≡ (lock_page s (i * page_size), i * page_size))
req_page-found s w room = elim (req_page-Requested s w) [
  | inl found ↦ found
  | inr (all, _) ↦ absurd (
      omega (
        arith,
        count_full s (frames_of s) (omega arith) (omega arith) (λ j p. all j (omega arith) p),
      ))
]
