-- ===== src/Tests/Pci.antt =====
-- The PCI Express functions at a table with two entries and at a header.
use osfort.Base.{
  ℕ, ◌≡◌, ◌==◌, refl, List, [], ◌∷◌, ◌++◌, ◌%◌, ◌^◌, ◌≤◌, some, none, if◌then◌else◌, arith,
}
use osfort.Memory.{Mem, load8, load_bytes}
use osfort.Pci.{
  Part, config_space_entries, pcie_get_config_space_addrs, pcie_read_config_space_header,
  pcie_concat_split_data,
}
use osfort.Pci.Layout.{size_of, field, header_fields, type_0_fields, type_1_fields}
use osfort.Pci.Header.{pcie_read_config_space_header-field}
use osfort.Pci.Join.{pcie_concat_split_data-load_bytes}
use osfort.Pci.Spaces.{IsListed, last_bus, pcie_get_config_space_addrs-IsListed}

-- The table at 0x100: 76 bytes, buses 0 to 2 from 0xe0000000 on, and bus 5 to 5 elsewhere.
abbrev firmware : Mem
firmware x =
    if x == 0x104
    then 76
    else if x == 0x12f
    then 0xe0
    else if x == 0x137
    then 2
    else if x == 0x13f
    then 0xf0
    else if x == 0x146
    then 5
    else if x == 0x147
    then 5
    else 0

two_entries : config_space_entries firmware 0x100 ≡ 2
unfolding load_bytes load8
two_entries = refl

-- The last bus is the second of the first entry: buses 2 and 5 are left out.
bus_one :
    last_bus (config_space_entries firmware 0x100) 0 firmware 0x100 none
    ≡ some (record { base = 0xe0000000; num = 1 })
unfolding load_bytes load8
bus_one = refl

pcie_get_config_space_addrs-IsListed_example :
    IsListed
      (some (record { base = 0xe0000000; num = 1 }))
      (pcie_get_config_space_addrs firmware 0x100 (λ x. x))
unfolding load_bytes load8
pcie_get_config_space_addrs-IsListed_example =
    pcie_get_config_space_addrs-IsListed firmware 0x100 (λ x. x)

header_sizes : size_of header_fields ≡ 64
header_sizes = refl

type_0_sizes : size_of type_0_fields ≡ 64
type_0_sizes = refl

type_1_sizes : size_of type_1_fields ≡ 64
type_1_sizes = refl

pcie_read_config_space_header-field_example :
    field type_0_fields 12 (pcie_read_config_space_header (λ x. x) 0x300) 0
    ≡ field type_0_fields 12 (λ x. x) 0x300
pcie_read_config_space_header-field_example =
    pcie_read_config_space_header-field type_0_fields 12 (λ x. x) 0x300 (omega arith) (omega arith)

abbrev one_part : List Part
one_part = record { size = 2; arg = 0x1234 } ∷ []

abbrev last_part : Part
last_part = record { size = 4; arg = 0xcafebabe }

pcie_concat_split_data-load_bytes_example :
    (load_bytes 4 (pcie_concat_split_data (one_part ++ (last_part ∷ [])) (λ _. 0)) 2
      ≡ 0xcafebabe % 256 ^ 4)
    × ((x : ℕ) → 64 ≤ x → pcie_concat_split_data (one_part ++ (last_part ∷ [])) (λ _. 0) x ≡ 0)
pcie_concat_split_data-load_bytes_example =
    pcie_concat_split_data-load_bytes one_part last_part [] (λ _. 0) (omega arith) (omega arith)
