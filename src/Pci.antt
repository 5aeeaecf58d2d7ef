-- ===== src/Pci.antt =====
-- dev/pci/pcie.c and pcie.h: the list of the functions' configuration spaces, the header of one, and
-- the joining of split data. The static arrays are functions of the index; `before` is what an earlier
-- call has left in one.
pub mod Bus
pub mod Spaces
pub mod Header
pub mod Join
pub mod Layout
use osfort.Base.{
  ℕ, zero, suc, ◌+◌, ◌-◌, ◌*◌, ◌/◌, ◌%◌, ◌^◌, List, [], ◌∷◌, ◌==◌, if◌then◌else◌, bit_and, u8, u64,
  sub64, ◌<<<◌, ◌>>>◌,
}
use osfort.Memory.{Mem, load8, store8, load32, store32, load64}
use osfort.Acpi.{sizeof_header, len_at}

-- ACPI_MCFG: the header, 8 reserved bytes, and the entries of 16 bytes.
abbrev pub sizeof_res : ℕ
sizeof_res = 8

abbrev pub sizeof_entry : ℕ
sizeof_entry = 16

abbrev pub config_space : ℕ → ℕ → ℕ
config_space mcfg i = u64 (mcfg + sizeof_header + sizeof_res + sizeof_entry * i)

-- The fields of ACPI_MCFG_CONFIGURATION_SPACE_ENTRY.
abbrev pub base_addr : Mem → ℕ → ℕ
base_addr m entry = load64 m entry

abbrev pub pci_num_start : Mem → ℕ → ℕ
pci_num_start m entry = load8 m (entry + 10)

abbrev pub pci_num_end : Mem → ℕ → ℕ
pci_num_end m entry = load8 m (entry + 11)

abbrev pub config_space_entries : Mem → ℕ → ℕ
config_space_entries m mcfg =
    sub64 (sub64 (load32 m (mcfg + len_at)) sizeof_header) sizeof_res / sizeof_entry

-- The address of function l of device k of bus j.
abbrev pub function_addr : ℕ → ℕ → ℕ → ℕ → ℕ
function_addr base j k l = u64 (base + (j <<< 20) + (k <<< 15) + (l <<< 12))

-- The array `config_space_addrs` with the 8-bit `index`.
abbrev pub Slots : Type 0
Slots = ℕ → ℕ

pub record State : Type 0 where
  pub slots : Slots
  pub index : ℕ

-- `config_space_addrs[index++] = addr`.
unfoldable pub push : ℕ → State → State
push addr s = record {
  slots = λ x. if s.index == x then addr else s.slots x;
  index = u8 (s.index + 1);
}

-- The loop over the functions, from l on with n left, and those around it.
unfoldable pub functions_from : ℕ → ℕ → ℕ → ℕ → ℕ → State → State
functions_from zero l base j k s = s
functions_from (suc n) l base j k s =
    functions_from n (l + 1) base j k (push (function_addr base j k l) s)

unfoldable pub devices_from : ℕ → ℕ → ℕ → ℕ → State → State
devices_from zero k base j s = s
devices_from (suc n) k base j s = devices_from n (k + 1) base j (functions_from 8 0 base j k s)

unfoldable pub buses_from : ℕ → ℕ → ℕ → State → State
buses_from zero j base s = s
buses_from (suc n) j base s = buses_from n (j + 1) base (devices_from 32 0 base j s)

unfoldable pub entries_from : ℕ → ℕ → Mem → ℕ → State → State
entries_from zero i m mcfg s = s
entries_from (suc n) i m mcfg s =
    let entry = config_space mcfg i in
    let start = pci_num_start m entry in
    entries_from n (i + 1) m mcfg
      (buses_from (pci_num_end m entry - start) start (base_addr m entry) s)

unfoldable pub clear_from : ℕ → ℕ → Slots → Slots
clear_from zero i slots = slots
clear_from (suc n) i slots = clear_from n (i + 1) (λ x. if i == x then 0 else slots x)

unfoldable pub pcie_get_config_space_addrs : Mem → ℕ → Slots → Slots
pcie_get_config_space_addrs m mcfg before =
    let cleared : State = record { slots = clear_from 0xfff 0 before; index = 0 } in
    (entries_from (config_space_entries m mcfg) 0 m mcfg cleared).slots

-- Word i of the header is copied, with n words left. The header that is returned lies at 0 of a memory
-- of its own.
unfoldable pub words_from : ℕ → ℕ → Mem → ℕ → Mem → Mem
words_from zero i m config_space_addr ret = ret
words_from (suc n) i m config_space_addr ret =
    words_from n (i + 1) m config_space_addr
      (store32 ret (i * 4) (load32 m (u64 (config_space_addr + i * 4))))

unfoldable pub pcie_read_config_space_header : Mem → ℕ → Mem
pcie_read_config_space_header m config_space_addr =
    words_from (64 / 4) 0 m config_space_addr (λ _. 0)

-- A size and an argument, as they are given in turn.
pub record Part : Type 0 where
  pub size : ℕ
  pub arg : ℕ

-- Byte j of an argument is put at ret_i, with n bytes left. C leaves a shift by 64 and more undefined;
-- x86-64 takes the count modulo 64.
unfoldable pub bytes_from : ℕ → ℕ → ℕ → ℕ → Mem → Mem
bytes_from zero j arg ret_i ret = ret
bytes_from (suc n) j arg ret_i ret =
    bytes_from n (j + 1) arg (ret_i + 1) (store8 ret ret_i (bit_and (arg >>> (j * 8 % 64)) 0xff))

unfoldable pub parts_from : List Part → ℕ → Mem → Mem
parts_from [] ret_i ret = ret
parts_from (p ∷ ps) ret_i ret = parts_from ps (ret_i + p.size) (bytes_from p.size 0 p.arg ret_i ret)

-- The array has 64 bytes; the writes behind them are in the model's memory too.
unfoldable pub pcie_concat_split_data : List Part → Mem → Mem
pcie_concat_split_data ps before = parts_from ps 0 before
