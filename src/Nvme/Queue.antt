-- ===== src/Nvme/Queue.antt =====
-- The admin queues over a run of commands: where the driver stands after n of them, and how it tells a
-- new completion from an old one by the phase bit.
use osfort.Base.{
  ℕ, zero, suc, ◌+◌, ◌-◌, ◌/◌, ◌%◌, ◌^◌, ◌<◌, ◌≡◌, ◌≢◌, inl, inr, refl, ap, ap₂, ◌∙◌, ◌==◌, eq→==,
  ne→==, Bool-cases, u32, List, [], ◌∷◌, ◌++◌, some, none, if◌then◌else◌, arith,
}
use osfort.Memory.{Mem}
use osfort.Nvme.{
  Nvme, cqe_phase, wait_phase, nvme_ring_asq_doorbell, nvme_ring_acq_doorbell, submit_identify,
  finish_identify, resume, nvme_command_identify,
}

-- The phase bit of entry i after the controller has posted c completions into a zeroed queue: it
-- fills the entries in turn and turns its phase over at each round, as the NVMe specification says.
unfoldable pub posted : ℕ → ℕ → ℕ
posted zero i = 0
posted (suc c) i = let rest = posted c i in if c % 32 == i then (c / 32 + 1) % 2 else rest

posted-eq : (c i : ℕ) → i < 32 → posted c i ≡ (c + 31 - i) / 32 % 2
unfolding posted
posted-eq zero i h = omega arith
posted-eq (suc c) i h = ground (arith, posted-eq c i h)

-- The driver after n commands.
unfoldable pub At : ℕ → Nvme → Type 0
At n s =
    (s.asq_tail ≡ n % 32)
    × (s.acq_head ≡ n % 32)
    × (s.acq_phase ≡ (n / 32 + 1) % 2)
    × (s.exp_cid ≡ (0x1000 + n / 32) % 2 ^ 16)

-- A memory whose completion queue shows c completions.
unfoldable pub Shows : ℕ → ℕ → Mem → Type 0
Shows acq c m = (i : ℕ) → i < 32 → cqe_phase m acq i ≡ posted c i

unfoldable pub AllShow : ℕ → ℕ → List Mem → Type 0
AllShow acq c [] = Unit
AllShow acq c (m ∷ ms) = Shows acq c m × AllShow acq c ms

phase_new :
    (acq n : ℕ) (m : Mem) → Shows acq (suc n) m → cqe_phase m acq (n % 32) ≡ (n / 32 + 1) % 2
unfolding Shows
phase_new acq n m h =
    omega (arith, h (n % 32) (omega arith), posted-eq (suc n) (n % 32) (omega arith))

phase_old : (acq n : ℕ) (m : Mem) → Shows acq n m → cqe_phase m acq (n % 32) ≢ (n / 32 + 1) % 2
unfolding Shows
phase_old acq n m h e =
    omega (arith, e, h (n % 32) (omega arith), posted-eq n (n % 32) (omega arith))

-- The wait ends at the first round whose entry has the expected phase.
wait_phase-found :
    (acq n : ℕ) (early : List Mem) (m : Mem) (late : List Mem)
    → AllShow acq n early
    → Shows acq (suc n) m
    → wait_phase (early ++ (m ∷ late)) acq (n % 32) ((n / 32 + 1) % 2) ≡ some m
unfolding wait_phase AllShow
wait_phase-found acq n [] m late old new = rw (eq→== _ _ (phase_new acq n m new)) refl
wait_phase-found acq n (m' ∷ early) m late (o, old) new =
    rw (ne→== _ _ (phase_old acq n m' o)) (wait_phase-found acq n early m late old new)

wait_phase-none :
    (acq n : ℕ) (ms : List Mem)
    → AllShow acq n ms
    → wait_phase ms acq (n % 32) ((n / 32 + 1) % 2) ≡ none
unfolding wait_phase AllShow
wait_phase-none acq n [] old = refl
wait_phase-none acq n (m ∷ ms) (o, old) =
    rw (ne→== _ _ (phase_old acq n m o)) (wait_phase-none acq n ms old)

-- The state after the two doorbells and the turn of the phase.
finish-At :
    (s : Nvme) (addr n : ℕ)
    → (s.asq_tail ≡ suc n % 32)
    → (s.acq_head ≡ n % 32)
    → (s.acq_phase ≡ (n / 32 + 1) % 2)
    → (s.exp_cid ≡ (0x1000 + n / 32) % 2 ^ 16)
    → At (suc n) (finish_identify s addr)
unfolding At finish_identify nvme_ring_acq_doorbell
finish-At s addr n t h p c =
    let head : u32 (s.acq_head + 1) % 32 ≡ suc n % 32 = omega (arith, h) in
    elim (Bool-cases (u32 (s.acq_head + 1) % 32 == 0)) [
      | inl wraps ↦
          rw wraps (t, head, ground (arith, p, head, wraps), ground (arith, c, head, wraps))
      | inr stays ↦
          rw stays (t, head, ground (arith, p, head, stays), ground (arith, c, head, stays))
    ]

submit-At :
    (s : Nvme) (addr asq prp1 n : ℕ)
    → At n s
    → (let s' = submit_identify s addr asq prp1 in
        (s'.asq_tail ≡ suc n % 32)
        × (s'.acq_head ≡ n % 32)
        × (s'.acq_phase ≡ (n / 32 + 1) % 2)
        × (s'.exp_cid ≡ (0x1000 + n / 32) % 2 ^ 16))
unfolding At submit_identify nvme_ring_asq_doorbell
submit-At s addr asq prp1 n (t, h, p, c) = (omega (arith, t), h, p, c)

-- Commands are answered in order. After n commands let the controller show n completions at each
-- early round of the wait and one more at the next: then the command returns, and the driver stands
-- after n + 1 commands.
pub nvme_command_identify-At :
    (device : Mem → List Mem) (s : Nvme) (addr asq acq prp1 n : ℕ) (early : List Mem) (m : Mem)
    (late : List Mem)
    → At n s
    → AllShow acq n early
    → Shows acq (suc n) m
    → device ((submit_identify s addr asq prp1).mem) ≡ early ++ (m ∷ late)
    → (s' : Nvme) × ((nvme_command_identify device s addr asq acq prp1 ≡ some s') × At (suc n) s')
unfolding nvme_command_identify
nvme_command_identify-At device s addr asq acq prp1 n early m late at old new e =
    let (t, h, p, c) = submit-At s addr asq prp1 n at in
    let s' = submit_identify s addr asq prp1 in
    let found : wait_phase (device s'.mem) acq s'.acq_head s'.acq_phase ≡ some m =
      ap (λ ms. wait_phase ms acq s'.acq_head s'.acq_phase) e
      ∙ ap₂ (λ a b. wait_phase (early ++ (m ∷ late)) acq a b) h p
      ∙ wait_phase-found acq n early m late old new in
    (
      finish_identify (record s' { mem = m }) addr,
      (ap (resume s' addr) found, finish-At _ addr n t h p c),
    )

-- While the controller shows no more than the n completions of the earlier commands, the command
-- after them does not return.
pub nvme_command_identify-waits :
    (device : Mem → List Mem) (s : Nvme) (addr asq acq prp1 n : ℕ)
    → At n s
    → AllShow acq n (device ((submit_identify s addr asq prp1).mem))
    → nvme_command_identify device s addr asq acq prp1 ≡ none
unfolding nvme_command_identify
nvme_command_identify-waits device s addr asq acq prp1 n at old =
    let (_, h, p, _) = submit-At s addr asq prp1 n at in
    let s' = submit_identify s addr asq prp1 in
    ap (resume s' addr)
      (ap₂ (λ a b. wait_phase (device s'.mem) acq a b) h p ∙ wait_phase-none acq n _ old)
