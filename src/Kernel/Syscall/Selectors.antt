-- ===== src/Kernel/Syscall/Selectors.antt =====
-- boot/kernel/kernel.c 177 to 190: the registers of a system call's way in and out.
use osfort.Base.{
  ℕ, ◌+◌, ◌*◌, ◌%◌, ◌^◌, ◌<◌, ◌≡◌, ◌≢◌, ◌<<<◌, true, refl, ap, ◌∙◌, none, some, u32, bit_and,
  bit_or, ◌>>>◌, arith,
}
use osfort.Base.Bits.{digit, digit-bit_or, digit-lt, bit_or-lt, bit_and-mask}
use osfort.Base.Bits.Disjoint.{bit_or-shl}
use osfort.Machine.{Msrs, rdmsr, wrmsr}
use osfort.Machine.Laws.{rdmsr-wrmsr_self, rdmsr-wrmsr_ne, rdmsr-lt}
use mathlib.Core.Option
use osfort.Kernel.Gdt.{segment, is_code, is_data}
use osfort.Kernel.Syscall.{efer, star, lstar, fmask, set_syscall}

star_value :
    (v : ℕ)
    → bit_or (bit_or (bit_and v 0xffffffff) (0x08 * 2 ^ 32)) (0x18 * 2 ^ 48)
      ≡ u32 v + 0x08 * 2 ^ 32 + 0x18 * 2 ^ 48
star_value v =
    let low : bit_and v 0xffffffff ≡ u32 v = bit_and-mask 32 v in
    let middle : bit_or (u32 v) (0x08 * 2 ^ 32) ≡ u32 v + 0x08 * 2 ^ 32 =
      bit_or-shl 32 (u32 v) 0x08 (omega arith) in
    rw (low, middle) (bit_or-shl 48 (u32 v + 0x08 * 2 ^ 32) 0x18 (omega arith))

-- Where the processor takes the selectors from: `syscall` from bits 32 to 47 of IA32_STAR, `sysretq`
-- from bits 48 to 63.
abbrev pub syscall_cs : ℕ → ℕ
syscall_cs v = v >>> 32 % 2 ^ 16

abbrev pub syscall_ss : ℕ → ℕ
syscall_ss v = v >>> 32 % 2 ^ 16 + 8

abbrev pub sysretq_cs : ℕ → ℕ
sysretq_cs v = v >>> 48 % 2 ^ 16 + 16

abbrev pub sysretq_ss : ℕ → ℕ
sysretq_ss v = v >>> 48 % 2 ^ 16 + 8

-- A digit that is set in one operand is set in `|`.
set_digit : (v w i : ℕ) → digit w i ≡ 1 → digit (bit_or v w) i ≡ 1
set_digit v w i e = omega (arith, digit-bit_or v w i, digit-lt v i)

module _ (msrs : Msrs) (handler : ℕ) (small : handler < 2 ^ 64) where
  abbrev m1 : Msrs
  m1 = wrmsr msrs efer (bit_or (rdmsr msrs efer) 1)

  abbrev m2 : Msrs
  m2 = wrmsr m1 lstar handler

  abbrev star_word : ℕ
  star_word = bit_or (bit_or (bit_and (rdmsr m2 star) 0xffffffff) (0x08 <<< 32)) (0x18 <<< 48)

  abbrev m3 : Msrs
  m3 = wrmsr m2 star star_word

  abbrev result : Msrs
  result = set_syscall msrs handler

  fmask_ne : (r : ℕ) → r < 2 ^ 32 → fmask ≢ r → rdmsr result r ≡ rdmsr m3 r
  unfolding set_syscall
  fmask_ne r h k = rdmsr-wrmsr_ne m3 fmask r _ (omega arith) h k

  efer_value : rdmsr result efer ≡ bit_or (rdmsr msrs efer) 1
  efer_value =
      fmask_ne efer (omega arith) (omega arith)
      ∙ rdmsr-wrmsr_ne m2 star efer _ (omega arith) (omega arith) (omega arith)
      ∙ rdmsr-wrmsr_ne m1 lstar efer _ (omega arith) (omega arith) (omega arith)
      ∙ rdmsr-wrmsr_self msrs efer _ (omega arith)
          (bit_or-lt 64 _ 1 (rdmsr-lt msrs efer) (omega arith))

  lstar_value : rdmsr result lstar ≡ handler
  lstar_value =
      fmask_ne lstar (omega arith) (omega arith)
      ∙ rdmsr-wrmsr_ne m2 star lstar _ (omega arith) (omega arith) (omega arith)
      ∙ rdmsr-wrmsr_self m1 lstar handler (omega arith) small

  star_kept : rdmsr m2 star ≡ rdmsr msrs star
  star_kept =
      rdmsr-wrmsr_ne m1 lstar star _ (omega arith) (omega arith) (omega arith)
      ∙ rdmsr-wrmsr_ne msrs efer star _ (omega arith) (omega arith) (omega arith)

  star_written : rdmsr result star ≡ u32 (rdmsr msrs star) + 0x08 * 2 ^ 32 + 0x18 * 2 ^ 48
  star_written =
      let word : star_word ≡ u32 (rdmsr m2 star) + 0x08 * 2 ^ 32 + 0x18 * 2 ^ 48 =
        star_value (rdmsr m2 star) in
      fmask_ne star (omega arith) (omega arith)
      ∙ rdmsr-wrmsr_self m2 star star_word (omega arith) (omega (arith, word))
      ∙ word
      ∙ ap (λ (v : ℕ). u32 v + 0x08 * 2 ^ 32 + 0x18 * 2 ^ 48) star_kept

  fmask_value : rdmsr result fmask ≡ bit_or (rdmsr m3 fmask) 0x200
  unfolding set_syscall
  fmask_value =
      rdmsr-wrmsr_self m3 fmask _ (omega arith)
        (bit_or-lt 64 _ 0x200 (rdmsr-lt m3 fmask) (omega arith))

-- With a 64-bit address of the handler: `syscall` is enabled and goes to the handler with interrupts
-- masked, the code selector it loads is that of the kernel's 64-bit code and the stack selector that
-- of the kernel's data, and `sysretq` loads a stack selector of the user's data but a code selector
-- past the end of the table.
pub set_syscall-segment :
    (msrs : Msrs) (handler : ℕ)
    → handler < 2 ^ 64
    → let r = rdmsr (set_syscall msrs handler) in
      (digit (r efer) 0 ≡ 1)
      × (r lstar ≡ handler)
      × (digit (r fmask) 9 ≡ 1)
      × (Option.map (is_code 0) (segment (syscall_cs (r star))) ≡ some true)
      × (Option.map (is_data 0) (segment (syscall_ss (r star))) ≡ some true)
      × (Option.map (is_data 3) (segment (sysretq_ss (r star))) ≡ some true)
      × (segment (sysretq_cs (r star)) ≡ none)
set_syscall-segment msrs handler small =
    let v = rdmsr (set_syscall msrs handler) star in
    let value = star_written msrs handler small in
    let entry : syscall_cs v ≡ 8 = omega (arith, value) in
    let leave : v >>> 48 % 2 ^ 16 ≡ 0x18 = omega (arith, value) in
    (
      ap (λ (t : ℕ). digit t 0) (efer_value msrs handler small) ∙ set_digit _ 1 0 refl,
      lstar_value msrs handler small,
      ap (λ (t : ℕ). digit t 9) (fmask_value msrs handler small) ∙ set_digit _ 0x200 9 refl,
      ap (λ (t : ℕ). Option.map (is_code 0) (segment t)) entry,
      ap (λ (t : ℕ). Option.map (is_data 0) (segment (t + 8))) entry,
      ap (λ (t : ℕ). Option.map (is_data 3) (segment (t + 8))) leave,
      ap (λ (t : ℕ). segment (t + 16)) leave,
    )
