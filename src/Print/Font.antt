-- ===== src/Print/Font.antt =====
-- boot/kernel/font.c: the glyph of a character.
pub mod Symbol
pub mod Upper
pub mod Lower
pub mod Laws
use osfort.Base.{ℕ, List, [], ◌∷◌, Option, none, some, if◌then◌else◌, ◌==◌}
use osfort.Print.Font.Symbol.{
  ascii32, ascii33, ascii34, ascii35, ascii36, ascii37, ascii38, ascii39, ascii40, ascii41, ascii42,
  ascii43, ascii44, ascii45, ascii46, ascii47, ascii48, ascii49, ascii50, ascii51, ascii52, ascii53,
  ascii54, ascii55, ascii56, ascii57, ascii58, ascii59, ascii60, ascii61, ascii62, ascii63,
}
use osfort.Print.Font.Upper.{
  ascii64, ascii65, ascii66, ascii67, ascii68, ascii69, ascii70, ascii71, ascii72, ascii73, ascii74,
  ascii75, ascii76, ascii77, ascii78, ascii79, ascii80, ascii81, ascii82, ascii83, ascii84, ascii85,
  ascii86, ascii87, ascii88, ascii89, ascii90, ascii91, ascii92, ascii93, ascii94, ascii95,
}
use osfort.Print.Font.Lower.{
  ascii96, ascii97, ascii98, ascii99, ascii100, ascii101, ascii102, ascii103, ascii104, ascii105,
  ascii106, ascii107, ascii108, ascii109, ascii110, ascii111, ascii112, ascii113, ascii114,
  ascii115, ascii116, ascii117, ascii118, ascii119, ascii120, ascii121, ascii122, ascii123,
  ascii124, ascii125, ascii126,
}

abbrev pub font_width : ℕ
font_width = 8

abbrev pub font_height : ℕ
font_height = 18

-- The cases of the switch, in order.
abbrev pub cases : List (ℕ × List ℕ)
cases =
    (32, ascii32)
    ∷ (33, ascii33)
    ∷ (34, ascii34)
    ∷ (35, ascii35)
    ∷ (36, ascii36)
    ∷ (37, ascii37)
    ∷ (38, ascii38)
    ∷ (39, ascii39)
    ∷ (40, ascii40)
    ∷ (41, ascii41)
    ∷ (42, ascii42)
    ∷ (43, ascii43)
    ∷ (44, ascii44)
    ∷ (45, ascii45)
    ∷ (46, ascii46)
    ∷ (47, ascii47)
    ∷ (48, ascii48)
    ∷ (49, ascii49)
    ∷ (50, ascii50)
    ∷ (51, ascii51)
    ∷ (52, ascii52)
    ∷ (53, ascii53)
    ∷ (54, ascii54)
    ∷ (55, ascii55)
    ∷ (56, ascii56)
    ∷ (57, ascii57)
    ∷ (58, ascii58)
    ∷ (59, ascii59)
    ∷ (60, ascii60)
    ∷ (61, ascii61)
    ∷ (62, ascii62)
    ∷ (63, ascii63)
    ∷ (64, ascii64)
    ∷ (65, ascii65)
    ∷ (66, ascii66)
    ∷ (67, ascii67)
    ∷ (68, ascii68)
    ∷ (69, ascii69)
    ∷ (70, ascii70)
    ∷ (71, ascii71)
    ∷ (72, ascii72)
    ∷ (73, ascii73)
    ∷ (74, ascii74)
    ∷ (75, ascii75)
    ∷ (76, ascii76)
    ∷ (77, ascii77)
    ∷ (78, ascii78)
    ∷ (79, ascii79)
    ∷ (80, ascii80)
    ∷ (81, ascii81)
    ∷ (82, ascii82)
    ∷ (83, ascii83)
    ∷ (84, ascii84)
    ∷ (85, ascii85)
    ∷ (86, ascii86)
    ∷ (87, ascii87)
    ∷ (88, ascii88)
    ∷ (89, ascii89)
    ∷ (90, ascii90)
    ∷ (91, ascii91)
    ∷ (92, ascii92)
    ∷ (93, ascii93)
    ∷ (94, ascii94)
    ∷ (95, ascii95)
    ∷ (96, ascii96)
    ∷ (97, ascii97)
    ∷ (98, ascii98)
    ∷ (99, ascii99)
    ∷ (100, ascii100)
    ∷ (101, ascii101)
    ∷ (102, ascii102)
    ∷ (103, ascii103)
    ∷ (104, ascii104)
    ∷ (105, ascii105)
    ∷ (106, ascii106)
    ∷ (107, ascii107)
    ∷ (108, ascii108)
    ∷ (109, ascii109)
    ∷ (110, ascii110)
    ∷ (111, ascii111)
    ∷ (112, ascii112)
    ∷ (113, ascii113)
    ∷ (114, ascii114)
    ∷ (115, ascii115)
    ∷ (116, ascii116)
    ∷ (117, ascii117)
    ∷ (118, ascii118)
    ∷ (119, ascii119)
    ∷ (120, ascii120)
    ∷ (121, ascii121)
    ∷ (122, ascii122)
    ∷ (123, ascii123)
    ∷ (124, ascii124)
    ∷ (125, ascii125)
    ∷ (126, ascii126)
    ∷ []

abbrev pub choose : List (ℕ × List ℕ) → ℕ → Option (List ℕ)
choose [] c = none
choose ((k, glyph) ∷ rest) c = let other = choose rest c in if c == k then some glyph else other

-- `none` is NULL. A character is its byte, so that a negative `char` is one from 128 on.
unfoldable pub char_to_bitmap : ℕ → Option (List ℕ)
char_to_bitmap = choose cases
