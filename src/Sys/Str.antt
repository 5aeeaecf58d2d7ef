-- ===== src/Sys/Str.antt =====
-- sys/string.c: memcpy, memset and strncmp over the memory. memcpy and memset return their first
-- argument, which no caller uses; here they return the new memory.
pub mod Laws
use osfort.Base.{
  ℕ, zero, suc, ◌+◌, ◌%◌, Bool, true, false, ◌||◌, not, ◌==◌, ltb, truthy, if◌then◌else◌,
}
use osfort.Memory.{Mem, load8, store8}

-- The loop of memcpy with n - i rounds left.
unfoldable pub memcpy_from : ℕ → ℕ → Mem → ℕ → ℕ → Mem
memcpy_from zero i m s1 s2 = m
memcpy_from (suc k) i m s1 s2 = memcpy_from k (i + 1) (store8 m (s1 + i) (load8 m (s2 + i))) s1 s2

unfoldable pub memcpy : Mem → ℕ → ℕ → ℕ → Mem
unfolding memcpy_from
memcpy m s1 s2 n = memcpy_from n 0 m s1 s2

unfoldable pub memset_from : ℕ → ℕ → Mem → ℕ → ℕ → Mem
memset_from zero i m s c = m
memset_from (suc k) i m s c = memset_from k (i + 1) (store8 m (s + i) c) s c

unfoldable pub memset : Mem → ℕ → ℕ → ℕ → Mem
unfolding memset_from
memset m s c n = memset_from n 0 m s c

-- The three results of strncmp: -1, 0 and 1.
pub data Sign : Type 0 where
  minus_one nought one : Sign

-- `char` is signed on x86-64: a > b, of two bytes. Bit 7 turned over gives the unsigned order.
unfoldable pub char_gt : ℕ → ℕ → Bool
char_gt a b = ltb ((b + 128) % 256) ((a + 128) % 256)

-- The loop of strncmp at index i with n - i rounds left.
unfoldable pub strncmp_from : ℕ → ℕ → Mem → ℕ → ℕ → Sign
unfolding char_gt
strncmp_from zero i m s1 s2 = nought
strncmp_from (suc k) i m s1 s2 =
    let a = load8 m (s1 + i) in
    let b = load8 m (s2 + i) in
    let rest = strncmp_from k (i + 1) m s1 s2 in
    if truthy a || truthy b
    then (if not (a == b) then (if char_gt a b then one else minus_one) else rest)
    else nought

unfoldable pub strncmp : Mem → ℕ → ℕ → ℕ → Sign
unfolding strncmp_from
strncmp m s1 s2 n = strncmp_from n 0 m s1 s2
