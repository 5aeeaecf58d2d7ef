-- ===== src/Print/Font/Lower.antt =====
-- boot/kernel/font.c, the glyphs of the lower-case letters and the marks from 96 to 126: 18 rows of 8 pixels, the highest bit on the left.
use osfort.Base.{ℕ, List, [], ◌∷◌}

abbrev pub ascii96 : List ℕ
ascii96 = 0 ∷ 0 ∷ 0x20 ∷ 0x10 ∷ 0x08 ∷ 0 ∷ 0 ∷ 0 ∷ 0 ∷ 0 ∷ 0 ∷ 0 ∷ 0 ∷ 0 ∷ 0 ∷ 0 ∷ 0 ∷ 0 ∷ []

abbrev pub ascii97 : List ℕ
ascii97 =
    0 ∷ 0 ∷ 0 ∷ 0 ∷ 0 ∷ 0 ∷ 0 ∷ 0x3C ∷ 0x42 ∷ 0x02 ∷ 0x3E ∷ 0x42 ∷ 0x42 ∷ 0x3E ∷ 0 ∷ 0 ∷ 0 ∷ 0 ∷ []

abbrev pub ascii98 : List ℕ
ascii98 =
    0 ∷ 0 ∷ 0 ∷ 0 ∷ 0x40 ∷ 0x40 ∷ 0x40 ∷ 0x7C ∷ 0x42 ∷ 0x42 ∷ 0x42 ∷ 0x42 ∷ 0x42 ∷ 0x7C ∷ 0 ∷ 0 ∷ 0
    ∷ 0 ∷ []

abbrev pub ascii99 : List ℕ
ascii99 =
    0 ∷ 0 ∷ 0 ∷ 0 ∷ 0 ∷ 0 ∷ 0 ∷ 0x3C ∷ 0x42 ∷ 0x40 ∷ 0x40 ∷ 0x40 ∷ 0x42 ∷ 0x3C ∷ 0 ∷ 0 ∷ 0 ∷ 0 ∷ []

abbrev pub ascii100 : List ℕ
ascii100 =
    0 ∷ 0 ∷ 0 ∷ 0 ∷ 0x02 ∷ 0x02 ∷ 0x02 ∷ 0x3E ∷ 0x42 ∷ 0x42 ∷ 0x42 ∷ 0x42 ∷ 0x42 ∷ 0x3E ∷ 0 ∷ 0 ∷ 0
    ∷ 0 ∷ []

abbrev pub ascii101 : List ℕ
ascii101 =
    0 ∷ 0 ∷ 0 ∷ 0 ∷ 0 ∷ 0 ∷ 0 ∷ 0x3C ∷ 0x42 ∷ 0x42 ∷ 0x7E ∷ 0x40 ∷ 0x42 ∷ 0x3C ∷ 0 ∷ 0 ∷ 0 ∷ 0 ∷ []

abbrev pub ascii102 : List ℕ
ascii102 =
    0 ∷ 0 ∷ 0 ∷ 0 ∷ 0x0C ∷ 0x10 ∷ 0x10 ∷ 0x7C ∷ 0x10 ∷ 0x10 ∷ 0x10 ∷ 0x10 ∷ 0x10 ∷ 0x10 ∷ 0 ∷ 0 ∷ 0
    ∷ 0 ∷ []

abbrev pub ascii103 : List ℕ
ascii103 =
    0 ∷ 0 ∷ 0 ∷ 0 ∷ 0 ∷ 0 ∷ 0 ∷ 0x3E ∷ 0x42 ∷ 0x42 ∷ 0x42 ∷ 0x42 ∷ 0x3E ∷ 0x02 ∷ 0x42 ∷ 0x3C ∷ 0 ∷ 0
    ∷ []

abbrev pub ascii104 : List ℕ
ascii104 =
    0 ∷ 0 ∷ 0 ∷ 0 ∷ 0x40 ∷ 0x40 ∷ 0x40 ∷ 0x7C ∷ 0x42 ∷ 0x42 ∷ 0x42 ∷ 0x42 ∷ 0x42 ∷ 0x42 ∷ 0 ∷ 0 ∷ 0
    ∷ 0 ∷ []

abbrev pub ascii105 : List ℕ
ascii105 =
    0 ∷ 0 ∷ 0 ∷ 0 ∷ 0x08 ∷ 0x08 ∷ 0 ∷ 0x38 ∷ 0x08 ∷ 0x08 ∷ 0x08 ∷ 0x08 ∷ 0x08 ∷ 0x3E ∷ 0 ∷ 0 ∷ 0 ∷ 0
    ∷ []

abbrev pub ascii106 : List ℕ
ascii106 =
    0 ∷ 0 ∷ 0 ∷ 0 ∷ 0x08 ∷ 0x08 ∷ 0 ∷ 0x38 ∷ 0x08 ∷ 0x08 ∷ 0x08 ∷ 0x08 ∷ 0x08 ∷ 0x08 ∷ 0x48 ∷ 0x30
    ∷ 0 ∷ 0 ∷ []

abbrev pub ascii107 : List ℕ
ascii107 =
    0 ∷ 0 ∷ 0 ∷ 0 ∷ 0x40 ∷ 0x40 ∷ 0x40 ∷ 0x44 ∷ 0x48 ∷ 0x50 ∷ 0x70 ∷ 0x48 ∷ 0x44 ∷ 0x42 ∷ 0 ∷ 0 ∷ 0
    ∷ 0 ∷ []

abbrev pub ascii108 : List ℕ
ascii108 =
    0 ∷ 0 ∷ 0 ∷ 0 ∷ 0x38 ∷ 0x08 ∷ 0x08 ∷ 0x08 ∷ 0x08 ∷ 0x08 ∷ 0x08 ∷ 0x08 ∷ 0x08 ∷ 0x3E ∷ 0 ∷ 0 ∷ 0
    ∷ 0 ∷ []

abbrev pub ascii109 : List ℕ
ascii109 =
    0 ∷ 0 ∷ 0 ∷ 0 ∷ 0 ∷ 0 ∷ 0 ∷ 0x76 ∷ 0x49 ∷ 0x49 ∷ 0x49 ∷ 0x49 ∷ 0x49 ∷ 0x49 ∷ 0 ∷ 0 ∷ 0 ∷ 0 ∷ []

abbrev pub ascii110 : List ℕ
ascii110 =
    0 ∷ 0 ∷ 0 ∷ 0 ∷ 0 ∷ 0 ∷ 0 ∷ 0x7C ∷ 0x42 ∷ 0x42 ∷ 0x42 ∷ 0x42 ∷ 0x42 ∷ 0x42 ∷ 0 ∷ 0 ∷ 0 ∷ 0 ∷ []

abbrev pub ascii111 : List ℕ
ascii111 =
    0 ∷ 0 ∷ 0 ∷ 0 ∷ 0 ∷ 0 ∷ 0 ∷ 0x3C ∷ 0x42 ∷ 0x42 ∷ 0x42 ∷ 0x42 ∷ 0x42 ∷ 0x3C ∷ 0 ∷ 0 ∷ 0 ∷ 0 ∷ []

abbrev pub ascii112 : List ℕ
ascii112 =
    0 ∷ 0 ∷ 0 ∷ 0 ∷ 0 ∷ 0 ∷ 0 ∷ 0x7C ∷ 0x42 ∷ 0x42 ∷ 0x42 ∷ 0x42 ∷ 0x7C ∷ 0x40 ∷ 0x40 ∷ 0x40 ∷ 0 ∷ 0
    ∷ []

abbrev pub ascii113 : List ℕ
ascii113 =
    0 ∷ 0 ∷ 0 ∷ 0 ∷ 0 ∷ 0 ∷ 0 ∷ 0x3E ∷ 0x42 ∷ 0x42 ∷ 0x42 ∷ 0x42 ∷ 0x3E ∷ 0x02 ∷ 0x02 ∷ 0x02 ∷ 0 ∷ 0
    ∷ []

abbrev pub ascii114 : List ℕ
ascii114 =
    0 ∷ 0 ∷ 0 ∷ 0 ∷ 0 ∷ 0 ∷ 0 ∷ 0x7C ∷ 0x42 ∷ 0x40 ∷ 0x40 ∷ 0x40 ∷ 0x40 ∷ 0x40 ∷ 0 ∷ 0 ∷ 0 ∷ 0 ∷ []

abbrev pub ascii115 : List ℕ
ascii115 =
    0 ∷ 0 ∷ 0 ∷ 0 ∷ 0 ∷ 0 ∷ 0 ∷ 0x3C ∷ 0x42 ∷ 0x40 ∷ 0x3C ∷ 0x02 ∷ 0x42 ∷ 0x3C ∷ 0 ∷ 0 ∷ 0 ∷ 0 ∷ []

abbrev pub ascii116 : List ℕ
ascii116 =
    0 ∷ 0 ∷ 0 ∷ 0 ∷ 0x10 ∷ 0x10 ∷ 0x10 ∷ 0x7C ∷ 0x10 ∷ 0x10 ∷ 0x10 ∷ 0x10 ∷ 0x10 ∷ 0x0C ∷ 0 ∷ 0 ∷ 0
    ∷ 0 ∷ []

abbrev pub ascii117 : List ℕ
ascii117 =
    0 ∷ 0 ∷ 0 ∷ 0 ∷ 0 ∷ 0 ∷ 0 ∷ 0x42 ∷ 0x42 ∷ 0x42 ∷ 0x42 ∷ 0x42 ∷ 0x42 ∷ 0x3E ∷ 0 ∷ 0 ∷ 0 ∷ 0 ∷ []

abbrev pub ascii118 : List ℕ
ascii118 =
    0 ∷ 0 ∷ 0 ∷ 0 ∷ 0 ∷ 0 ∷ 0 ∷ 0x42 ∷ 0x42 ∷ 0x42 ∷ 0x24 ∷ 0x24 ∷ 0x18 ∷ 0x18 ∷ 0 ∷ 0 ∷ 0 ∷ 0 ∷ []

abbrev pub ascii119 : List ℕ
ascii119 =
    0 ∷ 0 ∷ 0 ∷ 0 ∷ 0 ∷ 0 ∷ 0 ∷ 0x49 ∷ 0x49 ∷ 0x49 ∷ 0x49 ∷ 0x49 ∷ 0x49 ∷ 0x36 ∷ 0 ∷ 0 ∷ 0 ∷ 0 ∷ []

abbrev pub ascii120 : List ℕ
ascii120 =
    0 ∷ 0 ∷ 0 ∷ 0 ∷ 0 ∷ 0 ∷ 0 ∷ 0x42 ∷ 0x24 ∷ 0x18 ∷ 0x18 ∷ 0x24 ∷ 0x24 ∷ 0x42 ∷ 0 ∷ 0 ∷ 0 ∷ 0 ∷ []

abbrev pub ascii121 : List ℕ
ascii121 =
    0 ∷ 0 ∷ 0 ∷ 0 ∷ 0 ∷ 0 ∷ 0 ∷ 0x42 ∷ 0x42 ∷ 0x42 ∷ 0x42 ∷ 0x42 ∷ 0x3E ∷ 0x02 ∷ 0x42 ∷ 0x3C ∷ 0 ∷ 0
    ∷ []

abbrev pub ascii122 : List ℕ
ascii122 =
    0 ∷ 0 ∷ 0 ∷ 0 ∷ 0 ∷ 0 ∷ 0 ∷ 0x7E ∷ 0x02 ∷ 0x04 ∷ 0x18 ∷ 0x20 ∷ 0x40 ∷ 0x7E ∷ 0 ∷ 0 ∷ 0 ∷ 0 ∷ []

abbrev pub ascii123 : List ℕ
ascii123 =
    0 ∷ 0 ∷ 0 ∷ 0 ∷ 0x18 ∷ 0x20 ∷ 0x20 ∷ 0x20 ∷ 0x40 ∷ 0x20 ∷ 0x20 ∷ 0x20 ∷ 0x20 ∷ 0x18 ∷ 0 ∷ 0 ∷ 0
    ∷ 0 ∷ []

abbrev pub ascii124 : List ℕ
ascii124 =
    0 ∷ 0 ∷ 0 ∷ 0 ∷ 0x08 ∷ 0x08 ∷ 0x08 ∷ 0x08 ∷ 0x08 ∷ 0x08 ∷ 0x08 ∷ 0x08 ∷ 0x08 ∷ 0x08 ∷ 0 ∷ 0 ∷ 0
    ∷ 0 ∷ []

abbrev pub ascii125 : List ℕ
ascii125 =
    0 ∷ 0 ∷ 0 ∷ 0 ∷ 0x18 ∷ 0x04 ∷ 0x04 ∷ 0x04 ∷ 0x02 ∷ 0x04 ∷ 0x04 ∷ 0x04 ∷ 0x04 ∷ 0x18 ∷ 0 ∷ 0 ∷ 0
    ∷ 0 ∷ []

abbrev pub ascii126 : List ℕ
ascii126 = 0 ∷ 0 ∷ 0 ∷ 0 ∷ 0 ∷ 0 ∷ 0 ∷ 0 ∷ 0 ∷ 0x32 ∷ 0x4C ∷ 0 ∷ 0 ∷ 0 ∷ 0 ∷ 0 ∷ 0 ∷ 0 ∷ []
