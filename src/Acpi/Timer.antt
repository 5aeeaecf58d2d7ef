-- ===== src/Acpi/Timer.antt =====
-- dev/acpi/acpi.c, acpi_set_apic_timer.
use osfort.Base.{
  ℕ, suc, ◌+◌, ◌*◌, ◌/◌, ◌≤◌, ◌<◌, ◌≡◌, ◌⊎◌, refl, ap, ◌∙◌, List, some, false, leb, arith,
}
use native.Mathlib.Nat.{div-lt_iff_lt-mul}
use osfort.Base.Bits.{bit_and-zero_right}
use osfort.Memory.{Mem, load32}
use osfort.Memory.Laws.{store_bytes_frame, load_bytes-store_bytes_self, load_bytes-store_bytes_ne}
use osfort.Machine.{Out}
use osfort.Acpi.{
  Ports, spurious, lvt_timer, timer_icr, timer_div, local_apic_addr_at, apic_write, apic_read, wait,
  start_pit, ticks, before_wait, after_wait, acpi_set_apic_timer,
}

-- The wait ends with its first read, whatever the ports give.
wait_lem :
    (fuel : ℕ) (ports : Ports) (outs : List Out) (n : ℕ)
    → wait (suc fuel) ports outs n ≡ some (n + 1)
unfolding wait
wait_lem fuel ports outs n = rw (bit_and-zero_right (ports outs 0x61 n)) refl

ticks-lt : (n : ℕ) → 7 ≤ n → ticks 0xffffffff n < 0x10
unfolding ticks
ticks-lt n h =
    let quotient : 1600 / n < 256 = (div-lt_iff_lt-mul (omega arith)).1 (omega arith) in
    omega (arith, quotient)

-- An address is outside of the word that the code takes for a register.
abbrev pub IsOff : ℕ → ℕ → ℕ → Type 0
IsOff base register x = (x < base + 4 * register) ⊎ (base + 4 * register + 4 ≤ x)

-- The memory after it: at four times the offsets of the timer and of its counter stand the word that
-- stops the timer and one of all ones, and no byte has changed outside of the words at four times the
-- four offsets. The registers themselves, whose offsets are in bytes, lie outside of these words.
pub record IsStopped (m : Mem) (base : ℕ) (r : Mem) : Type 0 where
  pub timer : apic_read r base lvt_timer ≡ 0x10000
  pub counter : apic_read r base timer_icr ≡ 0xffffffff
  pub frame :
      (x : ℕ)
      → IsOff base spurious x
      → IsOff base lvt_timer x
      → IsOff base timer_icr x
      → IsOff base timer_div x
      → r x ≡ m x
  pub registers :
      (register i : ℕ)
      → (register ≡ spurious)
        ⊎ ((register ≡ lvt_timer) ⊎ ((register ≡ timer_icr) ⊎ (register ≡ timer_div)))
      → i < 4
      → r (base + register + i) ≡ m (base + register + i)

module _ (m : Mem) (base : ℕ) where
  abbrev stopped : Mem
  stopped = apic_write (before_wait m base) base lvt_timer 0x10000

  stopped-counter : apic_read stopped base timer_icr ≡ 0xffffffff
  unfolding before_wait
  stopped-counter =
      load_bytes-store_bytes_ne 4 4 (before_wait m base) (base + 4 * lvt_timer)
        (base + 4 * timer_icr) 0x10000 (omega arith)
      ∙ load_bytes-store_bytes_self 4 _ (base + 4 * timer_icr) 0xffffffff

  stopped-frame :
      (x : ℕ)
      → IsOff base spurious x
      → IsOff base lvt_timer x
      → IsOff base timer_icr x
      → IsOff base timer_div x
      → stopped x ≡ m x
  unfolding before_wait
  stopped-frame x off_spurious off_timer off_icr off_div =
      store_bytes_frame 4 _ (base + 4 * lvt_timer) _ x (omega (arith, off_timer))
      ∙ store_bytes_frame 4 _ (base + 4 * timer_icr) _ x (omega (arith, off_icr))
      ∙ store_bytes_frame 4 _ (base + 4 * timer_div) _ x (omega (arith, off_div))
      ∙ store_bytes_frame 4 _ (base + 4 * lvt_timer) _ x (omega (arith, off_timer))
      ∙ store_bytes_frame 4 _ (base + 4 * lvt_timer) _ x (omega (arith, off_timer))
      ∙ store_bytes_frame 4 m (base + 4 * spurious) _ x (omega (arith, off_spurious))

  stopped-IsStopped : IsStopped m base stopped
  unfolding before_wait
  stopped-IsStopped = record {
    timer = load_bytes-store_bytes_self 4 (before_wait m base) (base + 4 * lvt_timer) 0x10000;
    counter = stopped-counter;
    frame = stopped-frame;
    registers = λ register i which small.
        stopped-frame (base + register + i) (omega (arith, which, small))
          (omega (arith, which, small)) (omega (arith, which, small)) (omega (arith, which, small));
  }

  after_wait-stopped : (n : ℕ) → 7 ≤ n → after_wait (before_wait m base) base n ≡ stopped
  unfolding after_wait
  after_wait-stopped n h =
      let few : leb 0x10 (ticks (apic_read stopped base timer_icr) n) ≡ false =
        ap (λ (t : ℕ). leb 0x10 (ticks t n)) stopped-counter
        ∙ (let lt = ticks-lt n h in ground (arith, lt)) in
      rw few refl

-- Whatever the ports give, the set-up ends after one round of its wait. For 7 interrupts per second
-- or more it leaves, at four times their offsets, the word that stops the timer and a counter of all
-- ones. No byte changes outside of the words at four times the four registers' offsets, so that none
-- of the registers, whose offsets are in bytes, has changed.
pub acpi_set_apic_timer-IsStopped :
    (fuel : ℕ) (ports : Ports) (m : Mem) (outs : List Out) (madt n : ℕ)
    → 7 ≤ n
    → (r : Mem) × (o : List Out) × (acpi_set_apic_timer (suc fuel) ports m outs madt n
        ≡ some (r, o))
      × IsStopped m (load32 m (madt + local_apic_addr_at)) r
unfolding acpi_set_apic_timer
acpi_set_apic_timer-IsStopped fuel ports m outs madt n h =
    let base = load32 m (madt + local_apic_addr_at) in
    (
      stopped m base,
      start_pit ports outs,
      rw (acpi_set_apic_timer, wait_lem fuel ports (start_pit ports outs) 0)
          (ap (λ (t : Mem). some (t, start_pit ports outs)) (after_wait-stopped m base n h)),
      stopped-IsStopped m base,
    )
