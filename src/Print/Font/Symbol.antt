-- ===== src/Print/Font/Symbol.antt =====
-- boot/kernel/font.c, the glyphs of the space, the digits and the marks from 32 to 63: 18 rows of 8 pixels, the highest bit on the left.
use osfort.Base.{ℕ, List, [], ◌∷◌}

abbrev pub ascii32 : List ℕ
ascii32 = 0 ∷ 0 ∷ 0 ∷ 0 ∷ 0 ∷ 0 ∷ 0 ∷ 0 ∷ 0 ∷ 0 ∷ 0 ∷ 0 ∷ 0 ∷ 0 ∷ 0 ∷ 0 ∷ 0 ∷ 0 ∷ []

abbrev pub ascii33 : List ℕ
ascii33 =
    0 ∷ 0 ∷ 0 ∷ 0 ∷ 0x08 ∷ 0x08 ∷ 0x08 ∷ 0x08 ∷ 0x08 ∷ 0x08 ∷ 0x08 ∷ 0 ∷ 0x08 ∷ 0x08 ∷ 0 ∷ 0 ∷ 0 ∷ 0
    ∷ []

abbrev pub ascii34 : List ℕ
ascii34 = 0 ∷ 0 ∷ 0x24 ∷ 0x24 ∷ 0x24 ∷ 0x24 ∷ 0 ∷ 0 ∷ 0 ∷ 0 ∷ 0 ∷ 0 ∷ 0 ∷ 0 ∷ 0 ∷ 0 ∷ 0 ∷ 0 ∷ []

abbrev pub ascii35 : List ℕ
ascii35 =
    0 ∷ 0 ∷ 0 ∷ 0 ∷ 0x24 ∷ 0x24 ∷ 0x24 ∷ 0x7E ∷ 0x24 ∷ 0x24 ∷ 0x7E ∷ 0x24 ∷ 0x24 ∷ 0x24 ∷ 0 ∷ 0 ∷ 0
    ∷ 0 ∷ []

abbrev pub ascii36 : List ℕ
ascii36 =
    0 ∷ 0 ∷ 0x08 ∷ 0x08 ∷ 0x1C ∷ 0x2A ∷ 0x28 ∷ 0x28 ∷ 0x1C ∷ 0x0A ∷ 0x0A ∷ 0x0A ∷ 0x2A ∷ 0x1C ∷ 0x08
    ∷ 0x08 ∷ 0 ∷ 0 ∷ []

abbrev pub ascii37 : List ℕ
ascii37 =
    0 ∷ 0 ∷ 0 ∷ 0 ∷ 0x22 ∷ 0x54 ∷ 0x24 ∷ 0x08 ∷ 0x08 ∷ 0x10 ∷ 0x10 ∷ 0x24 ∷ 0x2A ∷ 0x44 ∷ 0 ∷ 0 ∷ 0
    ∷ 0 ∷ []

abbrev pub ascii38 : List ℕ
ascii38 =
    0 ∷ 0 ∷ 0 ∷ 0 ∷ 0x18 ∷ 0x24 ∷ 0x24 ∷ 0x24 ∷ 0x18 ∷ 0x30 ∷ 0x48 ∷ 0x4A ∷ 0x44 ∷ 0x3A ∷ 0 ∷ 0 ∷ 0
    ∷ 0 ∷ []

abbrev pub ascii39 : List ℕ
ascii39 = 0 ∷ 0 ∷ 0x08 ∷ 0x08 ∷ 0x08 ∷ 0x08 ∷ 0 ∷ 0 ∷ 0 ∷ 0 ∷ 0 ∷ 0 ∷ 0 ∷ 0 ∷ 0 ∷ 0 ∷ 0 ∷ 0 ∷ []

abbrev pub ascii40 : List ℕ
ascii40 =
    0 ∷ 0 ∷ 0 ∷ 0 ∷ 0x08 ∷ 0x10 ∷ 0x10 ∷ 0x20 ∷ 0x20 ∷ 0x20 ∷ 0x20 ∷ 0x10 ∷ 0x10 ∷ 0x08 ∷ 0 ∷ 0 ∷ 0
    ∷ 0 ∷ []

abbrev pub ascii41 : List ℕ
ascii41 =
    0 ∷ 0 ∷ 0 ∷ 0 ∷ 0x10 ∷ 0x08 ∷ 0x08 ∷ 0x04 ∷ 0x04 ∷ 0x04 ∷ 0x04 ∷ 0x08 ∷ 0x08 ∷ 0x10 ∷ 0 ∷ 0 ∷ 0
    ∷ 0 ∷ []

abbrev pub ascii42 : List ℕ
ascii42 = 0 ∷ 0 ∷ 0 ∷ 0 ∷ 0 ∷ 0 ∷ 0 ∷ 0 ∷ 0x08 ∷ 0x2A ∷ 0x1C ∷ 0x2A ∷ 0x08 ∷ 0 ∷ 0 ∷ 0 ∷ 0 ∷ 0 ∷ []

abbrev pub ascii43 : List ℕ
ascii43 = 0 ∷ 0 ∷ 0 ∷ 0 ∷ 0 ∷ 0 ∷ 0 ∷ 0 ∷ 0x08 ∷ 0x08 ∷ 0x3E ∷ 0x08 ∷ 0x08 ∷ 0 ∷ 0 ∷ 0 ∷ 0 ∷ 0 ∷ []

abbrev pub ascii44 : List ℕ
ascii44 = 0 ∷ 0 ∷ 0 ∷ 0 ∷ 0 ∷ 0 ∷ 0 ∷ 0 ∷ 0 ∷ 0 ∷ 0 ∷ 0 ∷ 0x08 ∷ 0x08 ∷ 0x08 ∷ 0x10 ∷ 0 ∷ 0 ∷ []

abbrev pub ascii45 : List ℕ
ascii45 = 0 ∷ 0 ∷ 0 ∷ 0 ∷ 0 ∷ 0 ∷ 0 ∷ 0 ∷ 0 ∷ 0 ∷ 0x7E ∷ 0 ∷ 0 ∷ 0 ∷ 0 ∷ 0 ∷ 0 ∷ 0 ∷ []

abbrev pub ascii46 : List ℕ
ascii46 = 0 ∷ 0 ∷ 0 ∷ 0 ∷ 0 ∷ 0 ∷ 0 ∷ 0 ∷ 0 ∷ 0 ∷ 0 ∷ 0 ∷ 0x08 ∷ 0x08 ∷ 0 ∷ 0 ∷ 0 ∷ 0 ∷ []

abbrev pub ascii47 : List ℕ
ascii47 =
    0 ∷ 0 ∷ 0 ∷ 0 ∷ 0x02 ∷ 0x04 ∷ 0x04 ∷ 0x08 ∷ 0x08 ∷ 0x10 ∷ 0x10 ∷ 0x20 ∷ 0x20 ∷ 0x40 ∷ 0 ∷ 0 ∷ 0
    ∷ 0 ∷ []

abbrev pub ascii48 : List ℕ
ascii48 =
    0 ∷ 0 ∷ 0 ∷ 0 ∷ 0x3C ∷ 0x42 ∷ 0x42 ∷ 0x46 ∷ 0x4A ∷ 0x52 ∷ 0x62 ∷ 0x42 ∷ 0x42 ∷ 0x3C ∷ 0 ∷ 0 ∷ 0
    ∷ 0 ∷ []

abbrev pub ascii49 : List ℕ
ascii49 =
    0 ∷ 0 ∷ 0 ∷ 0 ∷ 0x08 ∷ 0x18 ∷ 0x28 ∷ 0x08 ∷ 0x08 ∷ 0x08 ∷ 0x08 ∷ 0x08 ∷ 0x08 ∷ 0x3E ∷ 0 ∷ 0 ∷ 0
    ∷ 0 ∷ []

abbrev pub ascii50 : List ℕ
ascii50 =
    0 ∷ 0 ∷ 0 ∷ 0 ∷ 0x3C ∷ 0x42 ∷ 0x02 ∷ 0x02 ∷ 0x04 ∷ 0x08 ∷ 0x10 ∷ 0x20 ∷ 0x40 ∷ 0x7E ∷ 0 ∷ 0 ∷ 0
    ∷ 0 ∷ []

abbrev pub ascii51 : List ℕ
ascii51 =
    0 ∷ 0 ∷ 0 ∷ 0 ∷ 0x3C ∷ 0x42 ∷ 0x02 ∷ 0x02 ∷ 0x3C ∷ 0x02 ∷ 0x02 ∷ 0x02 ∷ 0x42 ∷ 0x3C ∷ 0 ∷ 0 ∷ 0
    ∷ 0 ∷ []

abbrev pub ascii52 : List ℕ
ascii52 =
    0 ∷ 0 ∷ 0 ∷ 0 ∷ 0x04 ∷ 0x0C ∷ 0x14 ∷ 0x24 ∷ 0x44 ∷ 0x7E ∷ 0x04 ∷ 0x04 ∷ 0x04 ∷ 0x04 ∷ 0 ∷ 0 ∷ 0
    ∷ 0 ∷ []

abbrev pub ascii53 : List ℕ
ascii53 =
    0 ∷ 0 ∷ 0 ∷ 0 ∷ 0x7E ∷ 0x40 ∷ 0x40 ∷ 0x40 ∷ 0x7C ∷ 0x02 ∷ 0x02 ∷ 0x02 ∷ 0x42 ∷ 0x3C ∷ 0 ∷ 0 ∷ 0
    ∷ 0 ∷ []

abbrev pub ascii54 : List ℕ
ascii54 =
    0 ∷ 0 ∷ 0 ∷ 0 ∷ 0x3C ∷ 0x42 ∷ 0x40 ∷ 0x40 ∷ 0x7C ∷ 0x42 ∷ 0x42 ∷ 0x42 ∷ 0x42 ∷ 0x3C ∷ 0 ∷ 0 ∷ 0
    ∷ 0 ∷ []

abbrev pub ascii55 : List ℕ
ascii55 =
    0 ∷ 0 ∷ 0 ∷ 0 ∷ 0x7E ∷ 0x02 ∷ 0x04 ∷ 0x04 ∷ 0x08 ∷ 0x08 ∷ 0x08 ∷ 0x10 ∷ 0x10 ∷ 0x10 ∷ 0 ∷ 0 ∷ 0
    ∷ 0 ∷ []

abbrev pub ascii56 : List ℕ
ascii56 =
    0 ∷ 0 ∷ 0 ∷ 0 ∷ 0x3C ∷ 0x42 ∷ 0x42 ∷ 0x42 ∷ 0x3C ∷ 0x42 ∷ 0x42 ∷ 0x42 ∷ 0x42 ∷ 0x3C ∷ 0 ∷ 0 ∷ 0
    ∷ 0 ∷ []

abbrev pub ascii57 : List ℕ
ascii57 =
    0 ∷ 0 ∷ 0 ∷ 0 ∷ 0x3C ∷ 0x42 ∷ 0x42 ∷ 0x42 ∷ 0x3E ∷ 0x02 ∷ 0x02 ∷ 0x02 ∷ 0x42 ∷ 0x3C ∷ 0 ∷ 0 ∷ 0
    ∷ 0 ∷ []

abbrev pub ascii58 : List ℕ
ascii58 = 0 ∷ 0 ∷ 0 ∷ 0 ∷ 0 ∷ 0 ∷ 0x08 ∷ 0x08 ∷ 0 ∷ 0 ∷ 0x08 ∷ 0x08 ∷ 0 ∷ 0 ∷ 0 ∷ 0 ∷ 0 ∷ 0 ∷ []

abbrev pub ascii59 : List ℕ
ascii59 =
    0 ∷ 0 ∷ 0 ∷ 0 ∷ 0 ∷ 0 ∷ 0x08 ∷ 0x08 ∷ 0 ∷ 0 ∷ 0x08 ∷ 0x08 ∷ 0x08 ∷ 0x10 ∷ 0 ∷ 0 ∷ 0 ∷ 0 ∷ []

abbrev pub ascii60 : List ℕ
ascii60 = 0 ∷ 0 ∷ 0 ∷ 0 ∷ 0 ∷ 0 ∷ 0 ∷ 0 ∷ 0x06 ∷ 0x18 ∷ 0x60 ∷ 0x18 ∷ 0x06 ∷ 0 ∷ 0 ∷ 0 ∷ 0 ∷ 0 ∷ []

abbrev pub ascii61 : List ℕ
ascii61 = 0 ∷ 0 ∷ 0 ∷ 0 ∷ 0 ∷ 0 ∷ 0 ∷ 0 ∷ 0x7E ∷ 0 ∷ 0 ∷ 0 ∷ 0x7E ∷ 0 ∷ 0 ∷ 0 ∷ 0 ∷ 0 ∷ []

abbrev pub ascii62 : List ℕ
ascii62 = 0 ∷ 0 ∷ 0 ∷ 0 ∷ 0 ∷ 0 ∷ 0 ∷ 0 ∷ 0x60 ∷ 0x18 ∷ 0x06 ∷ 0x18 ∷ 0x60 ∷ 0 ∷ 0 ∷ 0 ∷ 0 ∷ 0 ∷ []

abbrev pub ascii63 : List ℕ
ascii63 =
    0 ∷ 0 ∷ 0 ∷ 0 ∷ 0x3C ∷ 0x42 ∷ 0x02 ∷ 0x02 ∷ 0x04 ∷ 0x08 ∷ 0x08 ∷ 0 ∷ 0x08 ∷ 0x08 ∷ 0 ∷ 0 ∷ 0 ∷ 0
    ∷ []
