-- ===== src/Sys/Ctype/Laws.antt =====
-- How the character classes of sys/ctype.c fit together, and what toupper and tolower give.
use osfort.Base.{ℕ, ◌%◌, ◌^◌, ◌≡◌, true, false, ◌||◌, ◌&&◌, if◌then◌else◌, arith}
use osfort.Base.Bits.{bit_and-mask}
use osfort.Sys.Ctype.{
  ℤ, pos, negsuc, is, isalnum, isalpha, isascii, isblank, iscntrl, isdigit, isgraph, islower,
  isprint, ispunct, isspace, isupper, isxdigit, toascii, toupper, tolower,
}

-- For every int: the letters are the upper and the lower ones, the alphanumeric characters the
-- letters and the digits, the graphic ones the alphanumeric and the punctuation, the printable ones
-- the graphic and the space, and ASCII the printable and the control characters.
pub classes :
    (c : ℤ)
    → (isalpha c ≡ (isupper c || islower c))
      × (isalnum c ≡ (isalpha c || isdigit c))
      × (isgraph c ≡ (isalnum c || ispunct c))
      × (isprint c ≡ (isgraph c || is c b' '))
      × (isascii c ≡ (isprint c || iscntrl c))
unfolding isalpha isupper islower isalnum isdigit isgraph ispunct isprint isascii iscntrl
classes (pos n) = ground arith
classes (negsuc n) = ground arith

-- For every int: no alphanumeric character is punctuation, no upper-case letter a lower-case one, no
-- letter a digit, no printable character a control character and no graphic one white space; a blank
-- is white space, and a hexadecimal digit is alphanumeric.
pub classes_disjoint :
    (c : ℤ)
    → ((isalnum c && ispunct c) ≡ false)
      × ((isupper c && islower c) ≡ false)
      × ((isalpha c && isdigit c) ≡ false)
      × ((isprint c && iscntrl c) ≡ false)
      × ((isgraph c && isspace c) ≡ false)
      × ((isblank c && isspace c) ≡ isblank c)
      × ((isxdigit c && isalnum c) ≡ isxdigit c)
unfolding isgraph isspace isblank isxdigit isalpha isupper islower isalnum isdigit ispunct isprint
    iscntrl
classes_disjoint (pos n) = ground arith
classes_disjoint (negsuc n) = ground arith

-- For every int: tolower takes an upper-case letter to the lower-case letter from which toupper gives it
-- back, and the other way round; at an int that is no such letter each of the two answers 0, not the
-- int.
pub toupper-tolower :
    (c : ℤ)
    → (toupper (tolower c) ≡ (if isupper c then c else pos 0))
      × (tolower (toupper c) ≡ (if islower c then c else pos 0))
      × (islower (tolower c) ≡ isupper c)
      × (isupper (toupper c) ≡ islower c)
      × (toupper c ≡ (if islower c then toupper c else pos 0))
      × (tolower c ≡ (if isupper c then tolower c else pos 0))
unfolding isupper islower toupper tolower
toupper-tolower (pos n) = ground arith
toupper-tolower (negsuc n) = ground arith

-- For an int that is not negative, toascii is its residue modulo 128, and isascii accepts it.
pub toascii_lem : (n : ℕ) → (toascii (pos n) ≡ n % 128) × (isascii (pos (toascii (pos n))) ≡ true)
unfolding toascii isascii
toascii_lem n = ground (arith, bit_and-mask 7 (n % 2 ^ 32))
