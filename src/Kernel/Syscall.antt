-- ===== src/Kernel/Syscall.antt =====
-- boot/kernel/kernel.c, "Setting syscall", and syscall.c.
pub mod Selectors
use osfort.Base.{ℕ, ◌*◌, ◌^◌, if◌then◌else◌, ◌==◌, bit_and, bit_or, u64, ◌<<<◌}
use osfort.Machine.{Msrs, rdmsr, wrmsr}

abbrev pub efer : ℕ
efer = 0xc0000080

abbrev pub star : ℕ
star = 0xc0000081

abbrev pub lstar : ℕ
lstar = 0xc0000082

abbrev pub fmask : ℕ
fmask = 0xc0000084

-- The four writes in their order.
unfoldable pub set_syscall : Msrs → ℕ → Msrs
set_syscall msrs syscall_handler =
    let m1 = wrmsr msrs efer (bit_or (rdmsr msrs efer) 1) in
    let m2 = wrmsr m1 lstar syscall_handler in
    let m3 =
      wrmsr m2 star
        (bit_or (bit_or (bit_and (rdmsr m2 star) 0xffffffff) (0x08 <<< 32)) (0x18 <<< 48)) in
    wrmsr m3 fmask (bit_or (rdmsr m3 fmask) (1 <<< 9))

-- The switch of syscall_handler: the call returns, or it never does.
pub data Served : Type 0 where
  returned looping : Served

unfoldable pub syscall_handler : ℕ → Served
syscall_handler num =
    if num == 0
    then returned
    else if num == 1
    then returned
    else if num == 12
    then looping
    else returned
