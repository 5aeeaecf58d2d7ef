-- ===== src/Machine.antt =====
-- inc/asm.c: the machine instructions. A write to a port is an event, the latest first; the registers
-- are a function of their number.
pub mod Laws
use osfort.Base.{
  ℕ, ◌+◌, ◌*◌, ◌/◌, ◌%◌, ◌^◌, List, ◌∷◌, if◌then◌else◌, ◌==◌, bit_and, u8, u16, u32, u64, ◌<<<◌,
  ◌>>>◌,
}

-- A byte and the port it was written to.
pub record Out : Type 0 where
  pub value : ℕ
  pub port : ℕ

unfoldable pub outb : ℕ → ℕ → List Out → List Out
outb origin dest outs = record { value = u8 origin; port = u16 dest } ∷ outs

-- A write to an unused port, for the time it takes.
unfoldable pub io_wait : List Out → List Out
io_wait outs = record { value = 0; port = 0x80 } ∷ outs

abbrev pub Msrs : Type 0
Msrs = ℕ → ℕ

-- The instruction gives the register in two halves.
unfoldable pub rdmsr : Msrs → ℕ → ℕ
rdmsr msrs msr =
    let l = u32 (msrs (u32 msr)) in let h = u32 (msrs (u32 msr) >>> 32) in u64 (u64 (h <<< 32) + l)

unfoldable pub wrmsr : Msrs → ℕ → ℕ → Msrs
wrmsr msrs msr value r =
    let l = u32 (bit_and value 0xffffffff) in
    let h = u32 (value >>> 32) in if u32 msr == r then h * 2 ^ 32 + l else msrs r
