-- ===== src/Kernel/Gdt.antt =====
-- boot/kernel/gdt.c and gdt.h: the segments, and what a selector selects.
use osfort.Base.{ℕ, ◌/◌, ◌%◌, zero, suc, List, [], ◌∷◌, Option, none, some, Bool, ◌&&◌, ◌==◌}

pub record SegmentDescriptor : Type 0 where
  pub lim0 : ℕ
  pub base0 : ℕ
  pub base1 : ℕ
  pub a : ℕ
  pub lim1 : ℕ
  pub flag : ℕ
  pub base2 : ℕ

abbrev pub flat : ℕ → ℕ → SegmentDescriptor
flat a flag = record { lim0 = 0; base0 = 0; base1 = 0; a = a; lim1 = 0; flag = flag; base2 = 0 }

-- null, kernel_code, kernel_data, user_code and user_data.
abbrev pub gdt : List SegmentDescriptor
gdt = flat 0 0 ∷ flat 0x9a 2 ∷ flat 0x92 0 ∷ flat 0xfa 2 ∷ flat 0xf2 0 ∷ []

abbrev nth : List SegmentDescriptor → ℕ → Option SegmentDescriptor
nth [] i = none
nth (d ∷ ds) zero = some d
nth (d ∷ ds) (suc i) = nth ds i

-- The descriptor of a selector; `none` past the limit of the table.
abbrev pub segment : ℕ → Option SegmentDescriptor
segment selector = nth gdt (selector / 8)

-- A present segment of that privilege level: 64-bit code, or data that may be written.
abbrev pub is_code : ℕ → SegmentDescriptor → Bool
is_code dpl d = d.a / 0x80 == 1 && d.a / 0x20 % 4 == dpl && d.a / 8 % 4 == 3 && d.flag / 2 % 2 == 1

abbrev pub is_data : ℕ → SegmentDescriptor → Bool
is_data dpl d = d.a / 0x80 == 1 && d.a / 0x20 % 4 == dpl && d.a / 8 % 4 == 2 && d.a / 2 % 2 == 1
