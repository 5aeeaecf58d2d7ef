-- ===== src/Memory/Laws.antt =====
-- What a read gives after a write: at the same address, elsewhere, and of several bytes at once.
use native.Mathlib.Nat.{pow-suc}
use osfort.Base.Arith.{mod-pow-suc}
use osfort.Base.{
  ℕ, zero, suc, ◌+◌, ◌/◌, ◌%◌, ◌^◌, ◌≤◌, ◌<◌, ◌≡◌, refl, ap, ◌∙◌, ◌≢◌, ◌⊎◌, inl, arith, u8,
}
use osfort.Memory.{Mem, load8, store8, load_bytes, store_bytes}

pub load8-store8_self : (m : Mem) (a v : ℕ) → load8 (store8 m a v) a ≡ v % 256
unfolding load8 store8
load8-store8_self m a v = ground arith

pub store8-ne : (m : Mem) (a v x : ℕ) → a ≢ x → store8 m a v x ≡ m x
unfolding store8
store8-ne m a v x h = ground arith

-- A read depends on the bytes of its range alone.
pub load_bytes_ext :
    (n : ℕ) (m m' : Mem) (a : ℕ)
    → ((x : ℕ) → a ≤ x → x < a + n → m x ≡ m' x)
    → load_bytes n m a ≡ load_bytes n m' a
unfolding load_bytes load8
load_bytes_ext zero m m' a h = refl
load_bytes_ext (suc n) m m' a h = omega (
  arith,
  ap u8 (h a (omega arith) (omega arith)),
  load_bytes_ext n m m' (a + 1) (λ x p q. h x (omega arith) (omega arith)),
)

-- A write leaves every byte outside its range.
pub store_bytes_frame :
    (n : ℕ) (m : Mem) (a v x : ℕ) → (x < a) ⊎ (a + n ≤ x) → store_bytes n m a v x ≡ m x
unfolding store_bytes store8
store_bytes_frame zero m a v x h = refl
store_bytes_frame (suc n) m a v x h =
    store_bytes_frame n (store8 m a v) (a + 1) (v / 256) x (omega arith)
    ∙ store8-ne m a v x (omega arith)

pub load_bytes-lt : (n : ℕ) (m : Mem) (a : ℕ) → load_bytes n m a < 256 ^ n
unfolding load_bytes load8
load_bytes-lt zero m a = omega arith
load_bytes-lt (suc n) m a = omega (arith, load_bytes-lt n m (a + 1), pow-suc 256 n)

-- A write of v is read back modulo the width.
pub load_bytes-store_bytes_self :
    (n : ℕ) (m : Mem) (a v : ℕ) → load_bytes n (store_bytes n m a v) a ≡ v % 256 ^ n
unfolding load_bytes store_bytes load8
load_bytes-store_bytes_self zero m a v = omega arith
load_bytes-store_bytes_self (suc n) m a v = omega (
  arith,
  load_bytes-store_bytes_self n (store8 m a v) (a + 1) (v / 256),
  ap u8 (store_bytes_frame n (store8 m a v) (a + 1) (v / 256) a (inl (omega arith))),
  load8-store8_self m a v,
  mod-pow-suc 256 v n,
)

-- Disjoint ranges do not disturb one another.
pub load_bytes-store_bytes_ne :
    (k n : ℕ) (m : Mem) (a b v : ℕ)
    → (b + k ≤ a) ⊎ (a + n ≤ b)
    → load_bytes k (store_bytes n m a v) b ≡ load_bytes k m b
load_bytes-store_bytes_ne k n m a b v h =
    load_bytes_ext k (store_bytes n m a v) m b (λ x p q. store_bytes_frame n m a v x (omega arith))

pub load8_cong : (m m' : Mem) (a : ℕ) → m a ≡ m' a → load8 m a ≡ load8 m' a
unfolding load8
load8_cong m m' a e = ap u8 e

pub load8-lt : (m : Mem) (a : ℕ) → load8 m a < 256
unfolding load8
load8-lt m a = omega arith

pub load8-mod : (m : Mem) (a : ℕ) → load8 m a % 256 ≡ load8 m a
load8-mod m a = omega (arith, load8-lt m a)

pub load8-store8_ne : (m : Mem) (a v x : ℕ) → a ≢ x → load8 (store8 m a v) x ≡ load8 m x
load8-store8_ne m a v x h = load8_cong _ _ x (store8-ne m a v x h)

pub load_bytes-low : (n : ℕ) (m : Mem) (a : ℕ) → load_bytes (suc n) m a % 256 ≡ load8 m a
unfolding load_bytes
load_bytes-low n m a = omega (arith, load8-lt m a)
