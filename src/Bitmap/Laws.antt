-- ===== src/Bitmap/Laws.antt =====
-- get_bitmap and set_bitmap as a map from indices to bits.
use osfort.Base.{
  ℕ, ◌+◌, ◌*◌, ◌/◌, ◌%◌, ◌^◌, ◌≤◌, ◌<◌, ◌≡◌, ◌≢◌, ◌⊎◌, inl, inr, refl, ap, false, if◌then◌else◌,
  ◌==◌, ==_iff, eq→==, truthy, arith, bit_and, bit_or, u8, u64, ◌<<<◌, complement, ltb-false,
  Bool-cases,
}
use osfort.Base.Bits.{digit}
use osfort.Memory.{Mem, load8, store8}
use osfort.Memory.Laws.{load8-lt, load8-store8_self, load8-store8_ne, store8-ne, load8_cong}
use osfort.Bitmap.{Bitmap, get_bitmap, set_bitmap}
use osfort.Bitmap.Bit.{bit_and_bit, set_bits}

-- Bit i of the buffer, wherever the buffer ends.
abbrev pub bit_of : Mem → Bitmap → ℕ → ℕ
bit_of m b i = digit (load8 m (b.buffer + i / 8)) (i % 8)

-- The bits of the buffer can be counted in 64 bits.
abbrev pub IsSized : Bitmap → Type 0
IsSized b = b.size * 8 < 2 ^ 64

pub get_bitmap-bit_of :
    (m : Mem) (b : Bitmap) (i : ℕ) → IsSized b → i ≤ b.size * 8 → get_bitmap m b i ≡ bit_of m b i
unfolding get_bitmap
get_bitmap-bit_of m b i sized h = ground (
  arith,
  bit_and_bit (load8 m (b.buffer + i / 8)) (i % 8) (load8-lt m (b.buffer + i / 8)) (omega arith),
)

pub get_bitmap-refused :
    (m : Mem) (b : Bitmap) (i : ℕ) → IsSized b → b.size * 8 < i → get_bitmap m b i ≡ 0
unfolding get_bitmap
get_bitmap-refused m b i sized h = ground arith

pub set_bitmap-refused :
    (m : Mem) (b : Bitmap) (i v : ℕ) → IsSized b → b.size * 8 < i → set_bitmap m b i v ≡ (m, 0)
unfolding set_bitmap
set_bitmap-refused m b i v sized h = ground arith

u8-mod8 : (i : ℕ) → u8 (i % 8) ≡ i % 8
u8-mod8 i = omega arith

-- The byte that set_bitmap stores, and its bits.
abbrev pub new_byte : ℕ → ℕ → ℕ → ℕ
new_byte byte k v =
    if truthy v
    then bit_or byte (u8 (1 <<< u8 k))
    else bit_and byte (complement 8 (u8 (1 <<< u8 k)))

digit-new_byte :
    (byte k v j : ℕ)
    → byte < 256
    → k < 8
    → j < 8
    → digit (u8 (new_byte byte k v)) j
      ≡ (if k == j then (if truthy v then 1 else 0) else digit byte j)
digit-new_byte byte k v j hb hk hj = elim (Bool-cases (truthy v)) [
  | inl on ↦ rw on (set_bits byte k hb hk j hj).0
  | inr off ↦ rw off (set_bits byte k hb hk j hj).1
]

pub set_bitmap-store8 :
    (m : Mem) (b : Bitmap) (i v : ℕ)
    → IsSized b
    → i ≤ b.size * 8
    → set_bitmap m b i v
      ≡ (store8 m (b.buffer + i / 8) (new_byte (load8 m (b.buffer + i / 8)) (i % 8) v), 1)
unfolding set_bitmap
set_bitmap-store8 m b i v sized h = elim (Bool-cases (truthy v)) [
  | inl on ↦ rw on (rw (ltb-false (u64 (b.size * 8)) i (omega arith)) (rw (u8-mod8 i) refl))
  | inr off ↦ rw off (rw (ltb-false (u64 (b.size * 8)) i (omega arith)) (rw (u8-mod8 i) refl))
]

-- No byte but that of the index is written.
pub set_bitmap_frame :
    (m : Mem) (b : Bitmap) (i v x : ℕ) → b.buffer + i / 8 ≢ x → (set_bitmap m b i v).0 x ≡ m x
unfolding set_bitmap
set_bitmap_frame m b i v x h = ground (
  arith,
  store8-ne m (b.buffer + i / 8) (bit_or (load8 m (b.buffer + i / 8)) (u8 (1 <<< u8 (i % 8)))) x,
  store8-ne m (b.buffer + i / 8)
      (bit_and (load8 m (b.buffer + i / 8)) (complement 8 (u8 (1 <<< u8 (i % 8))))) x,
)

-- set_bitmap at index i, where it is not refused, gives bit i the value and keeps every other bit.
pub bit_of-set_bitmap :
    (m : Mem) (b : Bitmap) (i v j : ℕ)
    → IsSized b
    → i ≤ b.size * 8
    → bit_of (set_bitmap m b i v).0 b j
      ≡ (if i == j then (if truthy v then 1 else 0) else bit_of m b j)
bit_of-set_bitmap m b i v j sized h =
    let at = b.buffer + i / 8 in
    let w = new_byte (load8 m at) (i % 8) v in
    rw (set_bitmap-store8 m b i v sized h) (elim (Bool-cases (i / 8 == j / 8)) [
      | inl e ↦
          let e' : i / 8 ≡ j / 8 = (==_iff _ _).0 e in
          let same : (i % 8 == j % 8) ≡ (i == j) = ground arith in
          rw
            (
              ← e',
              load8-store8_self m at w,
              digit-new_byte (load8 m at) (i % 8) v (j % 8) (load8-lt m at) (omega arith)
                  (omega arith),
              same,
            )
            refl
      | inr n ↦
          let differ : (i == j) ≡ false = ground arith in
          rw (load8-store8_ne m at w (b.buffer + j / 8) (ground arith), differ) refl
    ])

-- For a map of fewer than 2 ^ 61 bytes and two indices inside it: set_bitmap at the one answers 1;
-- afterwards get_bitmap at the other reads the new value where the two are equal and the old one
-- otherwise; and a byte outside the buffer has not changed.
pub get_bitmap-set_bitmap :
    (m : Mem) (b : Bitmap) (i j v x : ℕ)
    → IsSized b
    → i < b.size * 8
    → j < b.size * 8
    → (x < b.buffer) ⊎ (b.buffer + b.size ≤ x)
    → ((set_bitmap m b i v).1 ≡ 1)
      × (get_bitmap (set_bitmap m b i v).0 b j
          ≡ (if i == j then (if truthy v then 1 else 0) else get_bitmap m b j))
      × ((set_bitmap m b i v).0 x ≡ m x)
get_bitmap-set_bitmap m b i j v x sized hi hj h = (
  ap (λ (r : Mem × ℕ). r.1) (set_bitmap-store8 m b i v sized (omega arith)),
  rw
      (
        get_bitmap-bit_of (set_bitmap m b i v).0 b j sized (omega arith),
        get_bitmap-bit_of m b j sized (omega arith),
      )
      (bit_of-set_bitmap m b i v j sized (omega arith)),
  set_bitmap_frame m b i v x (ground arith),
)

-- For a map of fewer than 2 ^ 61 bytes, the index one past the last bit is not refused: set_bitmap
-- answers 1 and sets bit 0 of the byte behind the buffer.
set_bitmap_past_end :
    (m : Mem) (b : Bitmap)
    → IsSized b
    → ((set_bitmap m b (b.size * 8) 1).1 ≡ 1)
      × (load8 (set_bitmap m b (b.size * 8) 1).0 (b.buffer + b.size) % 2 ≡ 1)
set_bitmap_past_end m b sized =
    let i = b.size * 8 in
    let e : i / 8 ≡ b.size = omega arith in
    let z : i % 8 ≡ 0 = omega arith in
    (
      ap (λ (r : Mem × ℕ). r.1) (set_bitmap-store8 m b i 1 sized (omega arith)),
      rw (eq→== i i refl, e, z) at (bit_of-set_bitmap m b i 1 i sized (omega arith)),
    )

-- The bits depend on the bytes of the buffer alone.
pub bit_of_ext :
    (m m' : Mem) (b : Bitmap) (j : ℕ)
    → j < b.size * 8
    → ((x : ℕ) → b.buffer ≤ x → x < b.buffer + b.size → m x ≡ m' x)
    → bit_of m b j ≡ bit_of m' b j
bit_of_ext m m' b j h same =
    ap (λ (t : ℕ). digit t (j % 8))
      (load8_cong m m' (b.buffer + j / 8) (same (b.buffer + j / 8) (omega arith) (omega arith)))

pub get_bitmap_ext :
    (m m' : Mem) (b : Bitmap) (j : ℕ)
    → IsSized b
    → j < b.size * 8
    → ((x : ℕ) → b.buffer ≤ x → x < b.buffer + b.size → m x ≡ m' x)
    → get_bitmap m b j ≡ get_bitmap m' b j
get_bitmap_ext m m' b j sized h same =
    rw (get_bitmap-bit_of m b j sized (omega arith), get_bitmap-bit_of m' b j sized (omega arith))
      (bit_of_ext m m' b j h same)
