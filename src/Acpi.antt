-- ===== src/Acpi.antt =====
-- dev/acpi/acpi.c and acpi.h: the search of the firmware's tables, and the timer of the local APIC,
-- whose registers are memory.
pub mod Search
pub mod Frame
pub mod Timer
use osfort.Base.{
  ℕ, zero, suc, ◌+◌, ◌-◌, ◌*◌, ◌/◌, ◌%◌, ◌^◌, List, [], ◌∷◌, Option, none, some, Bool, true, false,
  if◌then◌else◌, ◌==◌, leb, truthy, bit_and, bit_or, u32, u64, sub64, ◌<<<◌, ◌>>>◌,
}
use osfort.Memory.{Mem, load32, load64, store32}
use osfort.Machine.{Out, outb, io_wait}
use osfort.Sys.Str.{Sign, minus_one, nought, one, strncmp}

-- sizeof(ACPI_SDT_HEADER), the length field's place in it, and that of local_apic_addr in ACPI_MADT.
abbrev pub sizeof_header : ℕ
sizeof_header = 36

abbrev pub len_at : ℕ
len_at = 4

abbrev pub local_apic_addr_at : ℕ
local_apic_addr_at = 36

-- `!strncmp(...)`.
abbrev pub is_nought : Sign → Bool
is_nought minus_one = false
is_nought nought = true
is_nought one = false

abbrev pub entries : Mem → ℕ → ℕ
entries m xsdt = sub64 (load32 m (xsdt + len_at)) sizeof_header / 8

abbrev pub entry : Mem → ℕ → ℕ → ℕ
entry m xsdt i = load64 m (u64 (xsdt + sizeof_header + 8 * i))

-- The loop at entry i with k entries left; 0 is NULL.
unfoldable pub get_table_from : ℕ → ℕ → Mem → ℕ → ℕ → ℕ
get_table_from zero i m xsdt name = 0
get_table_from (suc k) i m xsdt name =
    let header = entry m xsdt i in
    let rest = get_table_from k (i + 1) m xsdt name in
    if is_nought (strncmp m header name 4) then header else rest

unfoldable pub acpi_get_table : Mem → ℕ → ℕ → ℕ
acpi_get_table m xsdt name = get_table_from (entries m xsdt) 0 m xsdt name

-- The APIC_REGISTER_ names that the timer uses.
abbrev pub spurious : ℕ
spurious = 0xf0

abbrev pub lvt_timer : ℕ
lvt_timer = 0x320

abbrev pub timer_icr : ℕ
timer_icr = 0x380

abbrev pub timer_div : ℕ
timer_div = 0x3e0

-- *(apic_base + reg) = value, where apic_base is a pointer to words of four bytes.
abbrev pub apic_write : Mem → ℕ → ℕ → ℕ → Mem
apic_write m apic_base reg value = store32 m (apic_base + 4 * reg) value

abbrev pub apic_read : Mem → ℕ → ℕ → ℕ
apic_read m apic_base reg = load32 m (apic_base + 4 * reg)

-- The bytes that the ports give: each may depend on all that was written before and on the reads
-- since, counted from 0.
abbrev pub Ports : Type 0
Ports = List Out → ℕ → ℕ → ℕ

-- `inb(0x61) & 0x20 == 0`, where == binds before &.
abbrev pub still_counting : ℕ → Bool
still_counting byte = truthy (bit_and byte (if 0x20 == 0 then 1 else 0))

-- The wait from read n on, on fuel: the number of reads, or `none` where the fuel runs out.
unfoldable pub wait : ℕ → Ports → List Out → ℕ → Option ℕ
wait zero ports outs n = none
wait (suc fuel) ports outs n =
    let rest = wait fuel ports outs (n + 1) in
    if still_counting (ports outs 0x61 n) then rest else some (n + 1)

-- The writes to the counter's ports, up to the start of the count.
unfoldable pub start_pit : Ports → List Out → List Out
start_pit ports outs =
    let o1 = outb (bit_or (bit_and (ports outs 0x61 0) 0xfd) 1) 0x61 outs in
    let o2 = outb 0xb2 0x43 o1 in
    let o3 = outb 0x9b 0x42 o2 in
    let o4 = io_wait o3 in
    let o5 = outb 0x2e 0x42 o4 in
    let tmp = bit_and (ports o5 0x61 0) 0xfe in outb (bit_or tmp 1) 0x61 (outb tmp 0x61 o5)

-- tmp1, of what is read from the counter.
unfoldable pub ticks : ℕ → ℕ → ℕ
ticks tmp0 int_per_second =
    let elapsed = u32 (u32 (0xffffffff - tmp0 + 1) <<< 4) in
    u32 ((elapsed * 100 / int_per_second) >>> 4)

-- The memory before the wait, and after it.
unfoldable pub before_wait : Mem → ℕ → Mem
before_wait m apic_base =
    let m1 = apic_write m apic_base spurious 0x27 in
    let m2 = apic_write m1 apic_base lvt_timer 0x20 in
    let m3 = apic_write m2 apic_base lvt_timer 0x21 in
    let m4 = apic_write m3 apic_base timer_div 0x03 in apic_write m4 apic_base timer_icr 0xffffffff

unfoldable pub after_wait : Mem → ℕ → ℕ → Mem
after_wait m apic_base int_per_second =
    let m1 = apic_write m apic_base lvt_timer 0x10000 in
    let tmp1 = ticks (apic_read m1 apic_base timer_icr) int_per_second in
    let m2 = apic_write m1 apic_base timer_icr tmp1 in
    if leb 0x10 tmp1 then apic_write m2 apic_base lvt_timer (bit_or 0x20 0x20000) else m1

-- `none` where the fuel of the wait runs out. For int_per_second from 1 on: 0 would be a division by
-- 0, and a negative one is not modelled.
unfoldable pub acpi_set_apic_timer : ℕ → Ports → Mem → List Out → ℕ → ℕ → Option (Mem × List Out)
acpi_set_apic_timer fuel ports m outs madt int_per_second =
    let apic_base = load32 m (madt + local_apic_addr_at) in
    let outs' = start_pit ports outs in
    elim (wait fuel ports outs' 0) as (λ _. Option (Mem × List Out)) [
      | none ↦ none
      | some n ↦ some (after_wait (before_wait m apic_base) apic_base int_per_second, outs')
    ]
