-- ===== src/Memory.antt =====
-- Memory as the kernel sees it: a byte at every address, and the little-endian accesses that the
-- casts of x86-64 C code make (`*(uint32_t*)addr`, `table->entries[i]`). Addresses are numbers;
-- the code's own arithmetic on them wraps where it is done.
pub mod Laws
use osfort.Base.{ℕ, zero, suc, ◌+◌, ◌*◌, ◌/◌, ◌%◌, ◌^◌, ◌==◌, if◌then◌else◌, u8}

abbrev pub Mem : Type 0
Mem = ℕ → ℕ

-- Reading one byte.
unfoldable pub load8 : Mem → ℕ → ℕ
load8 m a = u8 (m a)

-- Writing one byte.
unfoldable pub store8 : Mem → ℕ → ℕ → Mem
store8 m a v x = if a == x then u8 v else m x

-- n bytes from address a, the lowest first.
unfoldable pub load_bytes : ℕ → Mem → ℕ → ℕ
load_bytes zero m a = 0
load_bytes (suc n) m a = load8 m a + 256 * load_bytes n m (a + 1)

unfoldable pub store_bytes : ℕ → Mem → ℕ → ℕ → Mem
store_bytes zero m a v = m
store_bytes (suc n) m a v = store_bytes n (store8 m a v) (a + 1) (v / 256)

abbrev pub load32 : Mem → ℕ → ℕ
load32 = load_bytes 4

abbrev pub store32 : Mem → ℕ → ℕ → Mem
store32 = store_bytes 4

abbrev pub load64 : Mem → ℕ → ℕ
load64 = load_bytes 8

abbrev pub store64 : Mem → ℕ → ℕ → Mem
store64 = store_bytes 8
