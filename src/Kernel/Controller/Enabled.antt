-- ===== src/Kernel/Controller/Enabled.antt =====
-- boot/kernel/kernel.c 149 to 166: the controller is disabled, set up and enabled.
use osfort.Base.{
  ℕ, ◌+◌, ◌^◌, ◌≤◌, ◌<◌, ◌≡◌, ◌⊎◌, ◌↔◌, inl, inr, refl, ◌∙◌, Bool, true, false, not, List, [], ◌∷◌,
  some, truthy, Bool-cases, if◌then◌else◌, arith,
}
use osfort.Memory.{Mem}
use osfort.Nvme.{nvme_mmio_write_32, nvme_mmio_read_32}
use osfort.Kernel.Controller.{
  cc_offset, aqa_offset, asq_offset, acq_offset, set_registers, is_ready, wait_ready,
  init_controller,
}
use osfort.Kernel.Controller.Fields.{
  read_32_ext, read_64_ext, here_32, other_32, outside_32, IsSetUp, set_registers-IsSetUp,
}

-- The registers that the driver writes are the same: the configuration, and the queues' sizes and
-- addresses.
abbrev pub SameRegisters : ℕ → Mem → Mem → Type 0
SameRegisters addr m m' =
    (x : ℕ)
    → ((addr + cc_offset ≤ x) × (x < addr + cc_offset + 4))
      ⊎ ((addr + aqa_offset ≤ x) × (x < addr + acq_offset + 8))
    → m' x ≡ m x

-- Every round of a wait, and some round of it.
abbrev pub Always : (Mem → Type 0) → List Mem → Type 0
Always P [] = true ≡ true
Always P (m ∷ ms) = P m × Always P ms

abbrev pub Once : (Mem → Type 0) → List Mem → Type 0
Once P [] = true ≡ false
Once P (m ∷ ms) = P m ⊎ Once P ms

abbrev pub is_enabled : ℕ → Mem → Bool
is_enabled addr m = truthy (nvme_mmio_read_32 m addr cc_offset 0 1)

-- The documented behaviour of a controller: its status follows the bit that enables it, and it writes
-- none of the registers that the driver writes.
pub record IsController (addr : ℕ) (device : Mem → List Mem) : Type 0 where
  pub follows : (m : Mem) → Once (λ m'. is_ready addr m' ≡ is_enabled addr m) (device m)
  pub keeps : (m : Mem) → Always (SameRegisters addr m) (device m)

stops_iff :
    (wanted ready : Bool) → ((if wanted then ready else not ready) ≡ true) ↔ (ready ≡ wanted)
stops_iff true ready = (λ e. e, λ e. e)
stops_iff false true = ground arith
stops_iff false false = ground arith

-- A wait ends at a round that it waits for, if there is one.
wait_ready-found :
    (wanted : Bool) (addr : ℕ) (P : Mem → Type 0) (ms : List Mem)
    → Always P ms
    → Once (λ m'. is_ready addr m' ≡ wanted) ms
    → (r : Mem) × ((wait_ready wanted addr ms ≡ some r) × (P r × (is_ready addr r ≡ wanted)))
unfolding wait_ready
wait_ready-found wanted addr P [] always once = absurd (ground (arith, once))
wait_ready-found wanted addr P (m ∷ ms) always once =
    let (to, from) = stops_iff wanted (is_ready addr m) in
    elim (Bool-cases (if wanted then is_ready addr m else not (is_ready addr m))) [
      | inl stop ↦ rw stop (m, (refl, (always.0, to stop)))
      | inr go ↦ rw go (
          wait_ready-found wanted addr P ms always.1
            (elim once [ inl now ↦ absurd (cc (from now, go)) | inr later ↦ later ]))
    ]

-- What is set up stays so where the registers stay.
IsSetUp-same :
    (addr asq acq : ℕ) (m m' : Mem)
    → addr + 0x1000 ≤ 2 ^ 64
    → SameRegisters addr m m'
    → IsSetUp addr asq acq m
    → IsSetUp addr asq acq m'
IsSetUp-same addr asq acq m m' fits same h =
    let cc = λ (o k : ℕ).
      read_32_ext addr fits m' m cc_offset o k (omega arith) (λ x p q. same x (inl (p, q))) in
    let aqa = λ (o k : ℕ).
      read_32_ext addr fits m' m aqa_offset o k (omega arith)
        (λ x p q. same x (inr (p, omega (arith, q)))) in
    record {
      command_set = cc 4 3 ∙ h.command_set;
      arbitration = cc 11 3 ∙ h.arbitration;
      shutdown = cc 14 2 ∙ h.shutdown;
      page = cc 7 4 ∙ h.page;
      submission_entry = cc 16 4 ∙ h.submission_entry;
      completion_entry = cc 20 4 ∙ h.completion_entry;
      submission_last = aqa 0 12 ∙ h.submission_last;
      completion_last = aqa 16 12 ∙ h.completion_last;
      submission_page =
          read_64_ext addr fits m' m asq_offset 12 52 (omega arith)
            (λ x p q. same x (inr (omega (arith, p), omega (arith, q))))
          ∙ h.submission_page;
      completion_page =
          read_64_ext addr fits m' m acq_offset 12 52 (omega arith)
            (λ x p q. same x (inr (omega (arith, p), q)))
          ∙ h.completion_page;
    }

-- The write of the bit that enables leaves the other fields.
IsSetUp-enable :
    (addr asq acq : ℕ) (m : Mem)
    → addr + 0x1000 ≤ 2 ^ 64
    → IsSetUp addr asq acq m
    → IsSetUp addr asq acq (nvme_mmio_write_32 m addr cc_offset 0 1 1)
IsSetUp-enable addr asq acq m fits h =
    let m' = nvme_mmio_write_32 m addr cc_offset 0 1 1 in
    let cc = λ (o k : ℕ) (some_bit : 0 < k) (inside : o + k ≤ 32) (apart : 1 ≤ o).
      other_32 addr fits m cc_offset 0 1 1 (omega arith) (omega arith) (omega arith) o k
        (omega arith) some_bit inside (inr apart) in
    let behind : (x : ℕ) → addr + aqa_offset ≤ x → m' x ≡ m x = λ x p.
      outside_32 addr fits m cc_offset 0 1 1 (omega arith) (omega arith) (omega arith) x
        (omega arith) (inr (omega (arith, p))) in
    record {
      command_set = cc 4 3 (omega arith) (omega arith) (omega arith) ∙ h.command_set;
      arbitration = cc 11 3 (omega arith) (omega arith) (omega arith) ∙ h.arbitration;
      shutdown = cc 14 2 (omega arith) (omega arith) (omega arith) ∙ h.shutdown;
      page = cc 7 4 (omega arith) (omega arith) (omega arith) ∙ h.page;
      submission_entry = cc 16 4 (omega arith) (omega arith) (omega arith) ∙ h.submission_entry;
      completion_entry = cc 20 4 (omega arith) (omega arith) (omega arith) ∙ h.completion_entry;
      submission_last =
          read_32_ext addr fits m' m aqa_offset 0 12 (omega arith) (λ x p q. behind x p)
          ∙ h.submission_last;
      completion_last =
          read_32_ext addr fits m' m aqa_offset 16 12 (omega arith) (λ x p q. behind x p)
          ∙ h.completion_last;
      submission_page =
          read_64_ext addr fits m' m asq_offset 12 52 (omega arith)
            (λ x p q. behind x (omega (arith, p)))
          ∙ h.submission_page;
      completion_page =
          read_64_ext addr fits m' m acq_offset 12 52 (omega arith)
            (λ x p q. behind x (omega (arith, p)))
          ∙ h.completion_page;
    }

init_controller-enable :
    (device : Mem → List Mem) (m : Mem) (addr asq acq : ℕ) (m2 : Mem)
    → wait_ready false addr (device (nvme_mmio_write_32 m addr cc_offset 0 0 1)) ≡ some m2
    → init_controller device m addr asq acq
      ≡ wait_ready true addr
          (device (nvme_mmio_write_32 (set_registers m2 addr asq acq) addr cc_offset 0 1 1))
unfolding init_controller
init_controller-enable device m addr asq acq m2 e = rw (init_controller, e) refl

-- With a controller whose status comes to follow the bit that enables it, and that writes none of the
-- driver's registers, for registers that end below 2 ^ 64 and queues below 2 ^ 52: init_controller
-- returns, the controller is enabled and ready, and its fields hold the command set 0, the arbitration
-- 0, no shutdown notice, pages of 4096 bytes, entries of 2 ^ 6 and 2 ^ 4 bytes and 32 of each, and as
-- the page numbers of the queues their addresses in bytes.
pub init_controller-IsSetUp :
    (device : Mem → List Mem) (m : Mem) (addr asq acq : ℕ)
    → addr + 0x1000 ≤ 2 ^ 64
    → asq < 2 ^ 52
    → acq < 2 ^ 52
    → IsController addr device
    → (r : Mem) × ((init_controller device m addr asq acq ≡ some r)
        × (IsSetUp addr asq acq r
            × ((nvme_mmio_read_32 r addr cc_offset 0 1 ≡ 1) × (is_ready addr r ≡ true))))
init_controller-IsSetUp device m addr asq acq fits asq_small acq_small controller =
    let off : nvme_mmio_read_32 (nvme_mmio_write_32 m addr cc_offset 0 0 1) addr cc_offset 0 1 ≡ 0 =
      here_32 addr fits m cc_offset 0 0 1 (omega arith) (omega arith) (omega arith) (omega arith) in
    let m1 = nvme_mmio_write_32 m addr cc_offset 0 0 1 in
    let first =
      wait_ready-found false addr (SameRegisters addr m1) (device m1) (controller.keeps m1)
        (rw off at (controller.follows m1)) in
    let m3 = set_registers first.0 addr asq acq in
    let m4 = nvme_mmio_write_32 m3 addr cc_offset 0 1 1 in
    let on : nvme_mmio_read_32 m4 addr cc_offset 0 1 ≡ 1 =
      here_32 addr fits m3 cc_offset 0 1 1 (omega arith) (omega arith) (omega arith)
        (omega arith) in
    let second =
      wait_ready-found true addr (SameRegisters addr m4) (device m4) (controller.keeps m4)
        (rw on at (controller.follows m4)) in
    let same = second.1.1.0 in
    (
      second.0,
      (
        init_controller-enable device m addr asq acq first.0 first.1.0 ∙ second.1.0,
        (
          IsSetUp-same addr asq acq m4 second.0 fits same (
              IsSetUp-enable addr asq acq m3 fits
                (set_registers-IsSetUp first.0 addr asq acq fits asq_small acq_small)),
          (
            read_32_ext addr fits second.0 m4 cc_offset 0 1 (omega arith)
                  (λ x p q. same x (inl (p, q)))
                ∙ on,
            second.1.1.1,
          ),
        ),
      ),
    )
