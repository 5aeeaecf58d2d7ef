-- ===== src/Print/Font/Upper.antt =====
-- boot/kernel/font.c, the glyphs of the upper-case letters and the marks from 64 to 95: 18 rows of 8 pixels, the highest bit on the left.
use osfort.Base.{ℕ, List, [], ◌∷◌}

abbrev pub ascii64 : List ℕ
ascii64 =
    0 ∷ 0 ∷ 0 ∷ 0 ∷ 0x1C ∷ 0x22 ∷ 0x42 ∷ 0x4E ∷ 0x52 ∷ 0x52 ∷ 0x52 ∷ 0x4E ∷ 0x20 ∷ 0x1E ∷ 0 ∷ 0 ∷ 0
    ∷ 0 ∷ []

abbrev pub ascii65 : List ℕ
ascii65 =
    0 ∷ 0 ∷ 0 ∷ 0 ∷ 0x18 ∷ 0x18 ∷ 0x24 ∷ 0x24 ∷ 0x24 ∷ 0x42 ∷ 0x7E ∷ 0x42 ∷ 0x42 ∷ 0x42 ∷ 0 ∷ 0 ∷ 0
    ∷ 0 ∷ []

abbrev pub ascii66 : List ℕ
ascii66 =
    0 ∷ 0 ∷ 0 ∷ 0 ∷ 0x7C ∷ 0x42 ∷ 0x42 ∷ 0x42 ∷ 0x7C ∷ 0x42 ∷ 0x42 ∷ 0x42 ∷ 0x42 ∷ 0x7C ∷ 0 ∷ 0 ∷ 0
    ∷ 0 ∷ []

abbrev pub ascii67 : List ℕ
ascii67 =
    0 ∷ 0 ∷ 0 ∷ 0 ∷ 0x3C ∷ 0x42 ∷ 0x40 ∷ 0x40 ∷ 0x40 ∷ 0x40 ∷ 0x40 ∷ 0x40 ∷ 0x42 ∷ 0x3C ∷ 0 ∷ 0 ∷ 0
    ∷ 0 ∷ []

abbrev pub ascii68 : List ℕ
ascii68 =
    0 ∷ 0 ∷ 0 ∷ 0 ∷ 0x7C ∷ 0x42 ∷ 0x42 ∷ 0x42 ∷ 0x42 ∷ 0x42 ∷ 0x42 ∷ 0x42 ∷ 0x42 ∷ 0x7C ∷ 0 ∷ 0 ∷ 0
    ∷ 0 ∷ []

abbrev pub ascii69 : List ℕ
ascii69 =
    0 ∷ 0 ∷ 0 ∷ 0 ∷ 0x7E ∷ 0x40 ∷ 0x40 ∷ 0x40 ∷ 0x7E ∷ 0x40 ∷ 0x40 ∷ 0x40 ∷ 0x40 ∷ 0x7E ∷ 0 ∷ 0 ∷ 0
    ∷ 0 ∷ []

abbrev pub ascii70 : List ℕ
ascii70 =
    0 ∷ 0 ∷ 0 ∷ 0 ∷ 0x7E ∷ 0x40 ∷ 0x40 ∷ 0x40 ∷ 0x7E ∷ 0x40 ∷ 0x40 ∷ 0x40 ∷ 0x40 ∷ 0x40 ∷ 0 ∷ 0 ∷ 0
    ∷ 0 ∷ []

abbrev pub ascii71 : List ℕ
ascii71 =
    0 ∷ 0 ∷ 0 ∷ 0 ∷ 0x3C ∷ 0x42 ∷ 0x40 ∷ 0x40 ∷ 0x40 ∷ 0x4E ∷ 0x42 ∷ 0x42 ∷ 0x42 ∷ 0x3C ∷ 0 ∷ 0 ∷ 0
    ∷ 0 ∷ []

abbrev pub ascii72 : List ℕ
ascii72 =
    0 ∷ 0 ∷ 0 ∷ 0 ∷ 0x42 ∷ 0x42 ∷ 0x42 ∷ 0x42 ∷ 0x7E ∷ 0x42 ∷ 0x42 ∷ 0x42 ∷ 0x42 ∷ 0x42 ∷ 0 ∷ 0 ∷ 0
    ∷ 0 ∷ []

abbrev pub ascii73 : List ℕ
ascii73 =
    0 ∷ 0 ∷ 0 ∷ 0 ∷ 0x3E ∷ 0x08 ∷ 0x08 ∷ 0x08 ∷ 0x08 ∷ 0x08 ∷ 0x08 ∷ 0x08 ∷ 0x08 ∷ 0x3E ∷ 0 ∷ 0 ∷ 0
    ∷ 0 ∷ []

abbrev pub ascii74 : List ℕ
ascii74 =
    0 ∷ 0 ∷ 0 ∷ 0 ∷ 0x3E ∷ 0x08 ∷ 0x08 ∷ 0x08 ∷ 0x08 ∷ 0x08 ∷ 0x08 ∷ 0x08 ∷ 0x48 ∷ 0x30 ∷ 0 ∷ 0 ∷ 0
    ∷ 0 ∷ []

abbrev pub ascii75 : List ℕ
ascii75 =
    0 ∷ 0 ∷ 0 ∷ 0 ∷ 0x42 ∷ 0x44 ∷ 0x48 ∷ 0x50 ∷ 0x60 ∷ 0x60 ∷ 0x50 ∷ 0x48 ∷ 0x44 ∷ 0x42 ∷ 0 ∷ 0 ∷ 0
    ∷ 0 ∷ []

abbrev pub ascii76 : List ℕ
ascii76 =
    0 ∷ 0 ∷ 0 ∷ 0 ∷ 0x40 ∷ 0x40 ∷ 0x40 ∷ 0x40 ∷ 0x40 ∷ 0x40 ∷ 0x40 ∷ 0x40 ∷ 0x40 ∷ 0x7E ∷ 0 ∷ 0 ∷ 0
    ∷ 0 ∷ []

abbrev pub ascii77 : List ℕ
ascii77 =
    0 ∷ 0 ∷ 0 ∷ 0 ∷ 0x42 ∷ 0x66 ∷ 0x66 ∷ 0x5A ∷ 0x5A ∷ 0x42 ∷ 0x42 ∷ 0x42 ∷ 0x42 ∷ 0x42 ∷ 0 ∷ 0 ∷ 0
    ∷ 0 ∷ []

abbrev pub ascii78 : List ℕ
ascii78 =
    0 ∷ 0 ∷ 0 ∷ 0 ∷ 0x42 ∷ 0x62 ∷ 0x62 ∷ 0x52 ∷ 0x52 ∷ 0x4A ∷ 0x4A ∷ 0x46 ∷ 0x46 ∷ 0x42 ∷ 0 ∷ 0 ∷ 0
    ∷ 0 ∷ []

abbrev pub ascii79 : List ℕ
ascii79 =
    0 ∷ 0 ∷ 0 ∷ 0 ∷ 0x3C ∷ 0x42 ∷ 0x42 ∷ 0x42 ∷ 0x42 ∷ 0x42 ∷ 0x42 ∷ 0x42 ∷ 0x42 ∷ 0x3C ∷ 0 ∷ 0 ∷ 0
    ∷ 0 ∷ []

abbrev pub ascii80 : List ℕ
ascii80 =
    0 ∷ 0 ∷ 0 ∷ 0 ∷ 0x7C ∷ 0x42 ∷ 0x42 ∷ 0x42 ∷ 0x7C ∷ 0x40 ∷ 0x40 ∷ 0x40 ∷ 0x40 ∷ 0x40 ∷ 0 ∷ 0 ∷ 0
    ∷ 0 ∷ []

abbrev pub ascii81 : List ℕ
ascii81 =
    0 ∷ 0 ∷ 0 ∷ 0 ∷ 0x3C ∷ 0x42 ∷ 0x42 ∷ 0x42 ∷ 0x42 ∷ 0x42 ∷ 0x42 ∷ 0x42 ∷ 0x42 ∷ 0x3C ∷ 0x08
    ∷ 0x06 ∷ 0 ∷ 0 ∷ []

abbrev pub ascii82 : List ℕ
ascii82 =
    0 ∷ 0 ∷ 0 ∷ 0 ∷ 0x7C ∷ 0x42 ∷ 0x42 ∷ 0x42 ∷ 0x7C ∷ 0x48 ∷ 0x44 ∷ 0x44 ∷ 0x42 ∷ 0x42 ∷ 0 ∷ 0 ∷ 0
    ∷ 0 ∷ []

abbrev pub ascii83 : List ℕ
ascii83 =
    0 ∷ 0 ∷ 0 ∷ 0 ∷ 0x3C ∷ 0x42 ∷ 0x40 ∷ 0x40 ∷ 0x3C ∷ 0x02 ∷ 0x02 ∷ 0x02 ∷ 0x42 ∷ 0x3C ∷ 0 ∷ 0 ∷ 0
    ∷ 0 ∷ []

abbrev pub ascii84 : List ℕ
ascii84 =
    0 ∷ 0 ∷ 0 ∷ 0 ∷ 0x7F ∷ 0x08 ∷ 0x08 ∷ 0x08 ∷ 0x08 ∷ 0x08 ∷ 0x08 ∷ 0x08 ∷ 0x08 ∷ 0x08 ∷ 0 ∷ 0 ∷ 0
    ∷ 0 ∷ []

abbrev pub ascii85 : List ℕ
ascii85 =
    0 ∷ 0 ∷ 0 ∷ 0 ∷ 0x42 ∷ 0x42 ∷ 0x42 ∷ 0x42 ∷ 0x42 ∷ 0x42 ∷ 0x42 ∷ 0x42 ∷ 0x42 ∷ 0x3C ∷ 0 ∷ 0 ∷ 0
    ∷ 0 ∷ []

abbrev pub ascii86 : List ℕ
ascii86 =
    0 ∷ 0 ∷ 0 ∷ 0 ∷ 0x42 ∷ 0x42 ∷ 0x42 ∷ 0x42 ∷ 0x42 ∷ 0x24 ∷ 0x24 ∷ 0x24 ∷ 0x18 ∷ 0x18 ∷ 0 ∷ 0 ∷ 0
    ∷ 0 ∷ []

abbrev pub ascii87 : List ℕ
ascii87 =
    0 ∷ 0 ∷ 0 ∷ 0 ∷ 0x42 ∷ 0x42 ∷ 0x42 ∷ 0x42 ∷ 0x42 ∷ 0x5A ∷ 0x5A ∷ 0x66 ∷ 0x66 ∷ 0x42 ∷ 0 ∷ 0 ∷ 0
    ∷ 0 ∷ []

abbrev pub ascii88 : List ℕ
ascii88 =
    0 ∷ 0 ∷ 0 ∷ 0 ∷ 0x42 ∷ 0x42 ∷ 0x24 ∷ 0x24 ∷ 0x18 ∷ 0x18 ∷ 0x24 ∷ 0x24 ∷ 0x42 ∷ 0x42 ∷ 0 ∷ 0 ∷ 0
    ∷ 0 ∷ []

abbrev pub ascii89 : List ℕ
ascii89 =
    0 ∷ 0 ∷ 0 ∷ 0 ∷ 0x41 ∷ 0x41 ∷ 0x22 ∷ 0x22 ∷ 0x14 ∷ 0x08 ∷ 0x08 ∷ 0x08 ∷ 0x08 ∷ 0x08 ∷ 0 ∷ 0 ∷ 0
    ∷ 0 ∷ []

abbrev pub ascii90 : List ℕ
ascii90 =
    0 ∷ 0 ∷ 0 ∷ 0 ∷ 0x7E ∷ 0x02 ∷ 0x02 ∷ 0x04 ∷ 0x08 ∷ 0x10 ∷ 0x20 ∷ 0x40 ∷ 0x40 ∷ 0x7E ∷ 0 ∷ 0 ∷ 0
    ∷ 0 ∷ []

abbrev pub ascii91 : List ℕ
ascii91 =
    0 ∷ 0 ∷ 0 ∷ 0 ∷ 0x38 ∷ 0x20 ∷ 0x20 ∷ 0x20 ∷ 0x20 ∷ 0x20 ∷ 0x20 ∷ 0x20 ∷ 0x20 ∷ 0x38 ∷ 0 ∷ 0 ∷ 0
    ∷ 0 ∷ []

abbrev pub ascii92 : List ℕ
ascii92 =
    0 ∷ 0 ∷ 0 ∷ 0 ∷ 0x40 ∷ 0x20 ∷ 0x20 ∷ 0x10 ∷ 0x10 ∷ 0x08 ∷ 0x08 ∷ 0x04 ∷ 0x04 ∷ 0x02 ∷ 0 ∷ 0 ∷ 0
    ∷ 0 ∷ []

abbrev pub ascii93 : List ℕ
ascii93 =
    0 ∷ 0 ∷ 0 ∷ 0 ∷ 0x1C ∷ 0x04 ∷ 0x04 ∷ 0x04 ∷ 0x04 ∷ 0x04 ∷ 0x04 ∷ 0x04 ∷ 0x04 ∷ 0x1C ∷ 0 ∷ 0 ∷ 0
    ∷ 0 ∷ []

abbrev pub ascii94 : List ℕ
ascii94 = 0 ∷ 0 ∷ 0 ∷ 0 ∷ 0x18 ∷ 0x24 ∷ 0x42 ∷ 0 ∷ 0 ∷ 0 ∷ 0 ∷ 0 ∷ 0 ∷ 0 ∷ 0 ∷ 0 ∷ 0 ∷ 0 ∷ []

abbrev pub ascii95 : List ℕ
ascii95 = 0 ∷ 0 ∷ 0 ∷ 0 ∷ 0 ∷ 0 ∷ 0 ∷ 0 ∷ 0 ∷ 0 ∷ 0 ∷ 0 ∷ 0 ∷ 0 ∷ 0 ∷ 0x7E ∷ 0 ∷ 0 ∷ []
