-- ===== src/Sys/Ctype.antt =====
-- sys/ctype.c and the macros of sys/ctype.h. An `int` is an integer over the native numbers, and
-- the value of a comparison is a Boolean.
pub mod Laws
use osfort.Base.{
  ℕ, suc, ◌+◌, ◌-◌, ◌%◌, ◌^◌, Bool, true, false, ◌||◌, ◌&&◌, ◌==◌, leb, ltb, if◌then◌else◌, bit_and,
}

-- `negsuc n` is -(n + 1).
pub data ℤ : Type 0 where
  pos : ℕ → ℤ
  negsuc : ℕ → ℤ

-- lo <= c && c <= hi, for bounds that are not negative.
abbrev pub between : ℕ → ℤ → ℕ → Bool
between lo (pos n) hi = leb lo n && leb n hi
between lo (negsuc n) hi = false

abbrev pub is : ℤ → ℕ → Bool
is (pos n) k = n == k
is (negsuc n) k = false

-- The bit pattern of an `int`.
abbrev pub pattern32 : ℤ → ℕ
pattern32 (pos n) = n % 2 ^ 32
pattern32 (negsuc n) = 2 ^ 32 - 1 - n % 2 ^ 32

-- c - k and c + k.
abbrev pub minus : ℤ → ℕ → ℤ
minus (pos n) k = if ltb n k then negsuc (k - n - 1) else pos (n - k)
minus (negsuc n) k = negsuc (n + k)

abbrev pub plus : ℤ → ℕ → ℤ
plus (pos n) k = pos (n + k)
plus (negsuc n) k = if ltb n k then pos (k - n - 1) else negsuc (n - k)

pub isalnum : ℤ → Bool
isalnum c = between b'0' c b'9' || between b'A' c b'Z' || between b'a' c b'z'

pub isalpha : ℤ → Bool
isalpha c = between b'A' c b'Z' || between b'a' c b'z'

pub isascii : ℤ → Bool
isascii c = between 0 c 127

pub isblank : ℤ → Bool
isblank c = is c 9 || is c b' '

pub iscntrl : ℤ → Bool
iscntrl c = between 0 c 31 || is c 127

pub isdigit : ℤ → Bool
isdigit c = between b'0' c b'9'

pub isgraph : ℤ → Bool
isgraph c = between 33 c 126

pub islower : ℤ → Bool
islower c = between b'a' c b'z'

unfoldable pub isprint : ℤ → Bool
isprint c = between 32 c 126

pub ispunct : ℤ → Bool
ispunct c = between 33 c 47 || between 58 c 64 || between 91 c 96 || between 123 c 126

pub isspace : ℤ → Bool
isspace c = is c 9 || is c 10 || is c 11 || is c 12 || is c 13 || is c b' '

pub isupper : ℤ → Bool
isupper c = between b'A' c b'Z'

pub isxdigit : ℤ → Bool
isxdigit c = between b'0' c b'9' || between b'A' c b'F' || between b'a' c b'f'

pub toascii : ℤ → ℕ
toascii c = bit_and (pattern32 c) 0b1111111

pub toupper : ℤ → ℤ
unfolding islower
toupper c = if islower c then minus c 32 else pos 0

pub tolower : ℤ → ℤ
unfolding isupper
tolower c = if isupper c then plus c 32 else pos 0
