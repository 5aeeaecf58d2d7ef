-- ===== src/Machine/Laws.antt =====
-- inc/asm.c: rdmsr after wrmsr.
use osfort.Base.{ℕ, ◌%◌, ◌^◌, ◌<◌, ◌≡◌, ◌≢◌, refl, ◌∙◌, ne→==, u32, arith}
use osfort.Base.Bits.{bit_and-mask}
use osfort.Machine.{Msrs, rdmsr, wrmsr}

rdmsr_lem : (msrs : Msrs) (r : ℕ) → r < 2 ^ 32 → rdmsr msrs r ≡ msrs r % 2 ^ 64
unfolding rdmsr
rdmsr_lem msrs r h = let e : u32 r ≡ r = omega arith in rw e (omega arith)

wrmsr_self : (msrs : Msrs) (r v : ℕ) → r < 2 ^ 32 → v < 2 ^ 64 → wrmsr msrs r v r ≡ v
unfolding wrmsr
wrmsr_self msrs r v h k =
    let e : u32 r ≡ r = omega arith in rw e (ground (arith, bit_and-mask 32 v))

wrmsr_ne : (msrs : Msrs) (r s v : ℕ) → r < 2 ^ 32 → r ≢ s → wrmsr msrs r v s ≡ msrs s
unfolding wrmsr
wrmsr_ne msrs r s v h k = let e : u32 r ≡ r = omega arith in rw e (rw (ne→== r s k) refl)

-- A register reads back as it was written.
pub rdmsr-wrmsr_self :
    (msrs : Msrs) (r v : ℕ) → r < 2 ^ 32 → v < 2 ^ 64 → rdmsr (wrmsr msrs r v) r ≡ v
rdmsr-wrmsr_self msrs r v h k = rdmsr_lem _ r h ∙ omega (arith, wrmsr_self msrs r v h k)

-- The other registers read as before.
pub rdmsr-wrmsr_ne :
    (msrs : Msrs) (r s v : ℕ)
    → r < 2 ^ 32
    → s < 2 ^ 32
    → r ≢ s
    → rdmsr (wrmsr msrs r v) s ≡ rdmsr msrs s
rdmsr-wrmsr_ne msrs r s v h h' k =
    rdmsr_lem _ s h' ∙ omega (arith, wrmsr_ne msrs r s v h k, rdmsr_lem msrs s h')

pub rdmsr-lt : (msrs : Msrs) (r : ℕ) → rdmsr msrs r < 2 ^ 64
unfolding rdmsr
rdmsr-lt msrs r = omega arith
