-- ===== src/Pci/Layout.antt =====
-- dev/pci/pcie.h: the fields of the packed header structs, by their sizes in order.
use osfort.Base.{ℕ, zero, suc, ◌+◌, List, [], ◌∷◌, ◌++◌, replicate, get_or}
use osfort.Memory.{Mem, load_bytes}

-- The place of field i, and its value in a struct at 0.
abbrev pub offset : List ℕ → ℕ → ℕ
offset [] i = 0
offset (size ∷ sizes) zero = 0
offset (size ∷ sizes) (suc i) = size + offset sizes i

abbrev pub size_of : List ℕ → ℕ
size_of [] = 0
size_of (size ∷ sizes) = size + size_of sizes

abbrev pub field : List ℕ → ℕ → Mem → ℕ → ℕ
field sizes i m at = load_bytes (get_or sizes i 0) m (at + offset sizes i)

-- vendor_id, device_id, command, status, rev_id, prog_if, subclass, base_class, cache_line_size,
-- latency_timer, header_type, bist.
abbrev pub first_fields : List ℕ
first_fields = 2 ∷ 2 ∷ 2 ∷ 2 ∷ 1 ∷ 1 ∷ 1 ∷ 1 ∷ 1 ∷ 1 ∷ 1 ∷ 1 ∷ []

-- PCIE_CONFIGURATION_SPACE_HEADER: its arrays are fields of one byte each.
abbrev pub header_fields : List ℕ
header_fields = first_fields ++ (replicate 36 1 ++ (1 ∷ (replicate 7 1 ++ (1 ∷ 1 ∷ replicate 2 1))))

-- PCIE_CONFIGURATION_SPACE_HEADER_TYPE_0.
abbrev pub type_0_fields : List ℕ
type_0_fields =
    first_fields
    ++ (4 ∷ 4 ∷ 4 ∷ 4 ∷ 4 ∷ 4 ∷ 4 ∷ 2 ∷ 2 ∷ 4 ∷ 1 ∷ (replicate 7 1 ++ (1 ∷ 1 ∷ 1 ∷ 1 ∷ [])))

-- PCIE_CONFIGURATION_SPACE_HEADER_TYPE_1.
abbrev pub type_1_fields : List ℕ
type_1_fields =
    first_fields
    ++ (4
        ∷ 4
        ∷ 1
        ∷ 1
        ∷ 1
        ∷ 1
        ∷ 1
        ∷ 1
        ∷ 2
        ∷ 2
        ∷ 2
        ∷ 2
        ∷ 2
        ∷ 4
        ∷ 4
        ∷ 2
        ∷ 2
        ∷ 1
        ∷ (replicate 3 1 ++ (4 ∷ 1 ∷ 1 ∷ 2 ∷ [])))
