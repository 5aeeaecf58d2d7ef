-- ===== src/Paging/Count.antt =====
-- How many frames the bit map marks, and what one marked or cleared bit does to that number.
use osfort.Base.{
  ℕ, zero, suc, ◌+◌, ◌*◌, ◌<◌, ◌≡◌, inl, inr, refl, ap, ◌∙◌, if◌then◌else◌, ◌==◌, ==_iff, ne→==,
  truthy, arith, Bool-cases,
}
use osfort.Memory.{Mem}
use osfort.Bitmap.{Bitmap, set_bitmap}
use osfort.Bitmap.Laws.{bit_of, IsSized, bit_of-set_bitmap}

-- The number of set bits among the first n.
unfoldable pub count : Mem → Bitmap → ℕ → ℕ
count m b zero = 0
count m b (suc n) = count m b n + bit_of m b n

pub count_ext :
    (m m' : Mem) (b : Bitmap) (n : ℕ)
    → ((j : ℕ) → j < n → bit_of m b j ≡ bit_of m' b j)
    → count m b n ≡ count m' b n
unfolding count
count_ext m m' b zero h = refl
count_ext m m' b (suc n) h =
    omega (arith, h n (omega arith), count_ext m m' b n (λ j p. h j (omega arith)))

pub count-set_bitmap :
    (m : Mem) (b : Bitmap) (i v n : ℕ)
    → IsSized b
    → i < n
    → i < b.size * 8
    → count (set_bitmap m b i v).0 b n + bit_of m b i ≡ count m b n + (if truthy v then 1 else 0)
unfolding count
count-set_bitmap m b i v zero sized p q = absurd (omega arith)
count-set_bitmap m b i v (suc n) sized p q = elim (Bool-cases (i == n)) [
  | inl e ↦ ground (
    arith,
    bit_of-set_bitmap m b i v n sized,
    ap (λ (t : ℕ). bit_of m b t) ((==_iff i n).0 e),
    count_ext (set_bitmap m b i v).0 m b n (λ j h.
        bit_of-set_bitmap m b i v j sized (omega arith) ∙ rw (ne→== i j (ground arith)) refl),
  )
  | inr e ↦ ground (arith, bit_of-set_bitmap m b i v n sized, count-set_bitmap m b i v n sized)
]
