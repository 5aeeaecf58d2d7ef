-- ===== src/Pci/Header.antt =====
-- dev/pci/pcie.c 47 to 55: the header of a configuration space.
use osfort.Base.{
  ℕ, zero, suc, ◌+◌, ◌-◌, ◌*◌, ◌/◌, ◌%◌, ◌^◌, ◌≤◌, ◌<◌, ◌≡◌, inl, inr, refl, sym, ap, ap₂, ◌∙◌,
  List, [], ◌∷◌, get_or, u64, arith,
}
use osfort.Base.Arith.{eq-or-later}
use osfort.Memory.{Mem, load8, store8, load_bytes, store_bytes, load32, store32}
use osfort.Memory.Laws.{store_bytes_frame, load8_cong, load8-store8_self, load8-lt}
use osfort.Pci.Layout.{offset, size_of, field}
use osfort.Pci.{words_from, pcie_read_config_space_header}

-- Bytes that are read and written elsewhere stay what they are.
load8-store_bytes_copy :
    (n : ℕ) (m m' : Mem) (a b d : ℕ)
    → d < n
    → load8 (store_bytes n m a (load_bytes n m' b)) (a + d) ≡ load8 m' (b + d)
unfolding load_bytes store_bytes
load8-store_bytes_copy zero m m' a b d h = absurd (omega arith)
load8-store_bytes_copy (suc n) m m' a b d h =
    let low = load8-lt m' b in
    let next : load_bytes (suc n) m' b / 256 ≡ load_bytes n m' (b + 1) = omega (arith, low) in
    elim (eq-or-later 0 d (omega arith)) [
      | inl here ↦
          let value = load8 m' b + 256 * load_bytes n m' (b + 1) in
          let a_here : a + d ≡ a = omega (arith, here) in
          let b_here : b + d ≡ b = omega (arith, here) in
          rw (a_here, b_here)
            (load8_cong (store_bytes n (store8 m a value) (a + 1) (value / 256)) (store8 m a value)
                a (store_bytes_frame n _ (a + 1) _ a (inl (omega arith)))
              ∙ load8-store8_self m a value
              ∙ omega (arith, low))
      | inr later ↦
          let a_later : a + d ≡ a + 1 + (d - 1) = omega (arith, later) in
          let b_later : b + d ≡ b + 1 + (d - 1) = omega (arith, later) in
          rw (a_later, b_later, next)
            (load8-store_bytes_copy n _ m' (a + 1) (b + 1) (d - 1) (omega (arith, later)))
    ]

words_from-frame :
    (n i : ℕ) (m : Mem) (addr : ℕ) (ret : Mem) (x : ℕ)
    → x < i * 4
    → words_from n i m addr ret x ≡ ret x
unfolding words_from
words_from-frame zero i m addr ret x h = refl
words_from-frame (suc n) i m addr ret x h =
    words_from-frame n (i + 1) m addr _ x (omega arith)
    ∙ store_bytes_frame 4 ret (i * 4) _ x (inl h)

words_from-load8 :
    (n i : ℕ) (m : Mem) (addr : ℕ) (ret : Mem) (w d : ℕ)
    → addr + (i + n) * 4 ≤ 2 ^ 64
    → i ≤ w
    → w < i + n
    → d < 4
    → load8 (words_from n i m addr ret) (w * 4 + d) ≡ load8 m (addr + w * 4 + d)
unfolding words_from
words_from-load8 zero i m addr ret w d fits p q r = absurd (omega arith)
words_from-load8 (suc n) i m addr ret w d fits p q r =
    let exact : u64 (addr + i * 4) ≡ addr + i * 4 = omega (arith, fits) in
    let ret' = store32 ret (i * 4) (load32 m (addr + i * 4)) in
    rw exact (elim (eq-or-later i w p) [
      | inl here ↦ rw (← here) (
          load8_cong (words_from n (i + 1) m addr ret') ret' (i * 4 + d)
            (words_from-frame n (i + 1) m addr ret' (i * 4 + d) (omega arith))
          ∙ load8-store_bytes_copy 4 ret m (i * 4) (addr + i * 4) d r)
      | inr p' ↦ words_from-load8 n (i + 1) m addr ret' w d (omega (arith, fits)) p' (omega arith) r
    ])

header-load8 :
    (m : Mem) (addr x : ℕ)
    → addr + 64 ≤ 2 ^ 64
    → x < 64
    → load8 (pcie_read_config_space_header m addr) x ≡ load8 m (addr + x)
unfolding pcie_read_config_space_header
header-load8 m addr x fits h =
    let split : x / 4 * 4 + x % 4 ≡ x = omega arith in
    ap (load8 (words_from 16 0 m addr (λ _. 0))) (sym split)
    ∙ words_from-load8 16 0 m addr (λ _. 0) (x / 4) (x % 4) (omega (arith, fits)) (omega arith)
        (omega arith) (omega arith)
    ∙ ap (load8 m) (omega (arith, split))

load_bytes_shift :
    (n : ℕ) (m m' : Mem) (a b : ℕ)
    → ((d : ℕ) → d < n → load8 m (a + d) ≡ load8 m' (b + d))
    → load_bytes n m a ≡ load_bytes n m' b
unfolding load_bytes
load_bytes_shift zero m m' a b h = refl
load_bytes_shift (suc n) m m' a b h =
    ap₂ (λ (s t : ℕ). s + 256 * t)
      (ap (load8 m) (omega arith) ∙ h 0 (omega arith) ∙ ap (load8 m') (omega arith))
      (load_bytes_shift n m m' (a + 1) (b + 1)
        (λ d p. ap (load8 m) (omega arith) ∙ h (d + 1) (omega arith) ∙ ap (load8 m') (omega arith)))

-- A field of a layout lies inside of it.
field-inside : (sizes : List ℕ) (i : ℕ) → offset sizes i + get_or sizes i 0 ≤ size_of sizes
field-inside [] i = omega arith
field-inside (size ∷ sizes) zero = omega arith
field-inside (size ∷ sizes) (suc i) = omega (arith, field-inside sizes i)

-- For any packed layout of at most 64 bytes, and where the 64 bytes of a header do not wrap: each
-- field of the header that pcie_read_config_space_header returns is that of the configuration space.
pub pcie_read_config_space_header-field :
    (sizes : List ℕ) (i : ℕ) (m : Mem) (config_space_addr : ℕ)
    → size_of sizes ≤ 64
    → config_space_addr + 64 ≤ 2 ^ 64
    → field sizes i (pcie_read_config_space_header m config_space_addr) 0
      ≡ field sizes i m config_space_addr
pcie_read_config_space_header-field sizes i m addr narrow fits =
    let inside = field-inside sizes i in
    load_bytes_shift (get_or sizes i 0) _ m (0 + offset sizes i) (addr + offset sizes i) (λ d h.
      header-load8 m addr (0 + offset sizes i + d) fits (omega (arith, inside, narrow))
      ∙ ap (load8 m) (omega arith))
