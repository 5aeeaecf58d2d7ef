-- ===== src/Boot/Xsdt.antt =====
-- How the boot loader finds and checks the firmware's root tables: bootloader.c 470 to 506.
pub mod Checked
pub mod Last
use osfort.Base.{
  ℕ, zero, suc, ◌+◌, ◌*◌, ◌%◌, ◌^◌, List, Option, none, some, Bool, if◌then◌else◌, ◌==◌, not, u8,
}
use osfort.Memory.{Mem, load8, load32, load64}
use osfort.Boot.Guid.{guidcmp}

-- The configuration table: entries of a GUID and an address. The last entry with the GUID counts;
-- `none`: the variable xsdp is never set.
unfoldable pub find_from : ℕ → ℕ → Mem → ℕ → ℕ → Option ℕ → Option ℕ
find_from zero i m table acpi20 xsdp = xsdp
find_from (suc k) i m table acpi20 xsdp =
    find_from k (i + 1) m table acpi20
      (if guidcmp m acpi20 (table + 24 * i) then some (load64 m (table + 24 * i + 16)) else xsdp)

unfoldable pub find_xsdp : Mem → ℕ → ℕ → ℕ → Option ℕ
find_xsdp m number table acpi20 = find_from number 0 m table acpi20 none

-- `ret += ((UINT8*)at)[i]` for the k bytes from i on.
unfoldable pub sum_from : ℕ → ℕ → Mem → ℕ → ℕ → ℕ
sum_from zero i m at ret = ret
sum_from (suc k) i m at ret = sum_from k (i + 1) m at (u8 (ret + load8 m (at + i)))

-- What the loader tells before it stops, or the address that it goes on with.
pub data Verdict : Type 0 where
  invalid_xsdp invalid_xsdt : Verdict
  valid : ℕ → Verdict

-- The xsdt_addr of ACPI_XSDP, and the len of a table.
abbrev pub xsdt_addr : Mem → ℕ → ℕ
xsdt_addr m xsdp = load64 m (xsdp + 24)

abbrev pub len : Mem → ℕ → ℕ
len m xsdt = load32 m (xsdt + 4)

-- The firmware library's strncmpa answers 0 for the bytes at an address and a text.
module _ (agrees : Mem → ℕ → List ℕ → Bool) (rsd_ptr xsdt_name : List ℕ) where
  unfoldable pub check_tables : Mem → ℕ → Verdict
  check_tables m xsdp =
      let xsdt = xsdt_addr m xsdp in
      let ret20 = sum_from 20 0 m xsdp 0 in
      let ret36 = sum_from 36 0 m xsdp ret20 in
      let ret = sum_from (len m xsdt) 0 m xsdt ret36 in
      if not (agrees m xsdp rsd_ptr)
      then invalid_xsdp
      else if not (ret20 == 0)
      then invalid_xsdp
      else if not (ret36 == 0)
      then invalid_xsdp
      else if not (agrees m xsdt xsdt_name)
      then invalid_xsdt
      else if not (ret == 0)
      then invalid_xsdt
      else valid xsdt
