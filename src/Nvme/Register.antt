-- ===== src/Nvme/Register.antt =====
-- A field of a register that is written is read back, and nothing else of the register or the memory
-- changes.
use osfort.Base.{
  ℕ, ◌+◌, ◌-◌, ◌*◌, ◌/◌, ◌%◌, ◌^◌, ◌≤◌, ◌<◌, ◌≡◌, ◌⊎◌, inl, inr, ap, ◌∙◌, Bool-cases, ltb, bit_and,
  bit_or, u64, ◌>>>◌, arith,
}
use osfort.Base.Bits.{
  digit, digit-bit_or, digit-shl_low, digit-shl_high, digit-shr, digit-mod, digit-ge, digit_ext,
  bit_and-mask, bit_or-lt,
}
use osfort.Base.Field.{
  field_get, field_set, field_get-field_set_self, field_get-field_set_ne, field_set-lt,
}
use osfort.Memory.{Mem, load32, store32}
use osfort.Memory.Laws.{
  load_bytes-lt, load_bytes-store_bytes_self, load_bytes-store_bytes_ne, store_bytes_frame,
}
use osfort.Nvme.{
  nvme_mmio_write_32, nvme_mmio_read_32, read_pair, nvme_mmio_write_64, nvme_mmio_read_64,
}

module _ (m : Mem) (addr offs1 offs2 value size : ℕ) (fits : value < 2 ^ size) where
  -- For a field inside its 32-bit register, of at least one bit, and a value of its width: after the
  -- write the field reads the value, a field of the register that shares no bit with it reads as
  -- before, and no byte outside the register changes.
  pub nvme_mmio_read_32-write_32 :
      (o k x : ℕ)
      → 0 < size
      → offs2 + size ≤ 32
      → 0 < k
      → o + k ≤ 32
      → (o + k ≤ offs2) ⊎ (offs2 + size ≤ o)
      → (x < u64 (addr + offs1)) ⊎ (u64 (addr + offs1) + 4 ≤ x)
      → (nvme_mmio_read_32 (nvme_mmio_write_32 m addr offs1 offs2 value size) addr offs1 offs2 size
          ≡ value)
        × (nvme_mmio_read_32 (nvme_mmio_write_32 m addr offs1 offs2 value size) addr offs1 o k
            ≡ nvme_mmio_read_32 m addr offs1 o k)
        × (nvme_mmio_write_32 m addr offs1 offs2 value size x ≡ m x)
  unfolding nvme_mmio_read_32 nvme_mmio_write_32
  nvme_mmio_read_32-write_32 o k b _ inside _ inside' apart out =
      let at = u64 (addr + offs1) in
      let word = load32 m at in
      let y = field_set 32 word offs2 value size in
      let small : y < 2 ^ 32 =
        field_set-lt 32 offs2 size inside word value (load_bytes-lt 4 m at) in
      let back : load32 (store32 m at y) at ≡ y =
        load_bytes-store_bytes_self 4 m at y ∙ omega (arith, small) in
      (
        ap (λ (t : ℕ). field_get 32 t offs2 size) back
            ∙ field_get-field_set_self 32 offs2 size inside word value fits,
        ap (λ (t : ℕ). field_get 32 t o k) back
            ∙ field_get-field_set_ne 32 offs2 size inside word value fits o k inside' apart,
        store_bytes_frame 4 m at y b out,
      )

-- A 64-bit word from its halves.
halves : (x : ℕ) → x < 2 ^ 64 → bit_or (x / 2 ^ 32 * 2 ^ 32) (x % 2 ^ 32) ≡ x
halves x h = digit_ext 64 _ x (bit_or-lt 64 _ _ (omega arith) (omega arith)) h (λ i p.
    digit-bit_or (x / 2 ^ 32 * 2 ^ 32) (x % 2 ^ 32) i ∙ elim (Bool-cases (ltb i 32)) [
      | inl low ↦ ground (arith, digit-shl_low (x / 2 ^ 32) 32 i, digit-mod x 32 i)
      | inr high ↦
          let e : 32 + (i - 32) ≡ i = ground arith in
          ground (
            arith,
            ap (λ (t : ℕ). digit (x / 2 ^ 32 * 2 ^ 32) t) e,
            ap (λ (t : ℕ). digit x t) e,
            digit-shl_high (x / 2 ^ 32) 32 (i - 32),
            digit-shr x 32 (i - 32),
            digit-ge (x % 2 ^ 32) 32 i,
          )
    ])

-- The two words of a 64-bit register, after both are written.
read_pair-store32 :
    (m : Mem) (at x : ℕ)
    → at + 8 ≤ 2 ^ 64
    → x < 2 ^ 64
    → read_pair (store32 (store32 m at (bit_and x 0xFFFFFFFF)) (u64 (at + 4)) (x >>> 32)) at ≡ x
unfolding read_pair
read_pair-store32 m at x room small =
    let next : u64 (at + 4) ≡ at + 4 = omega arith in
    rw next (
      let low_word : bit_and x 0xFFFFFFFF ≡ x % 2 ^ 32 = bit_and-mask 32 x in
      let m' = store32 m at (bit_and x 0xFFFFFFFF) in
      let high : load32 (store32 m' (at + 4) (x >>> 32)) (at + 4) ≡ x / 2 ^ 32 =
        load_bytes-store_bytes_self 4 m' (at + 4) (x >>> 32) ∙ omega arith in
      let low : load32 (store32 m' (at + 4) (x >>> 32)) at ≡ x % 2 ^ 32 =
        load_bytes-store_bytes_ne 4 4 m' (at + 4) at (x >>> 32) (inl (omega arith))
        ∙ load_bytes-store_bytes_self 4 m at (bit_and x 0xFFFFFFFF)
        ∙ omega (arith, low_word) in
      ap (λ (t : ℕ). bit_or (t * 2 ^ 32) (load32 (store32 m' (at + 4) (x >>> 32)) at)) high
      ∙ ap (λ (t : ℕ). bit_or (x / 2 ^ 32 * 2 ^ 32) t) low
      ∙ halves x small)

read_pair-lt : (m : Mem) (at : ℕ) → read_pair m at < 2 ^ 64
unfolding read_pair
read_pair-lt m at =
    bit_or-lt 64 _ _ (omega (arith, load_bytes-lt 4 m (u64 (at + 4))))
      (omega (arith, load_bytes-lt 4 m at))

module _ (m : Mem) (addr offs1 offs2 value size : ℕ) (fits : value < 2 ^ size) where
  -- For a field inside its 64-bit register, of at least one bit, a value of its width, and a register
  -- that does not run past the last address: after the write the field reads the value, a field of the
  -- register that shares no bit with it reads as before, and no byte outside the register changes.
  pub nvme_mmio_read_64-write_64 :
      (o k x : ℕ)
      → 0 < size
      → offs2 + size ≤ 64
      → addr + offs1 + 8 ≤ 2 ^ 64
      → 0 < k
      → o + k ≤ 64
      → (o + k ≤ offs2) ⊎ (offs2 + size ≤ o)
      → (x < addr + offs1) ⊎ (addr + offs1 + 8 ≤ x)
      → (nvme_mmio_read_64 (nvme_mmio_write_64 m addr offs1 offs2 value size) addr offs1 offs2 size
          ≡ value)
        × (nvme_mmio_read_64 (nvme_mmio_write_64 m addr offs1 offs2 value size) addr offs1 o k
            ≡ nvme_mmio_read_64 m addr offs1 o k)
        × (nvme_mmio_write_64 m addr offs1 offs2 value size x ≡ m x)
  unfolding nvme_mmio_read_64 nvme_mmio_write_64
  nvme_mmio_read_64-write_64 o k b _ inside room _ inside' apart out =
      let at = u64 (addr + offs1) in
      let here : at ≡ addr + offs1 = omega arith in
      let word = read_pair m at in
      let y = field_set 64 word offs2 value size in
      let small : y < 2 ^ 64 = field_set-lt 64 offs2 size inside word value (read_pair-lt m at) in
      let back = read_pair-store32 m at y (omega (arith, here)) small in
      (
        ap (λ (t : ℕ). field_get 64 t offs2 size) back
            ∙ field_get-field_set_self 64 offs2 size inside word value fits,
        ap (λ (t : ℕ). field_get 64 t o k) back
            ∙ field_get-field_set_ne 64 offs2 size inside word value fits o k inside' apart,
        store_bytes_frame 4 (store32 m at (bit_and y 0xFFFFFFFF)) (u64 (at + 4)) (y >>> 32) b
              (omega (arith, here))
            ∙ store_bytes_frame 4 m at (bit_and y 0xFFFFFFFF) b (omega (arith, here)),
      )
