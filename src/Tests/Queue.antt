-- ===== src/Tests/Queue.antt =====
-- The first identify command, with the admin completion queue at 0x8000.
use osfort.Base.{
  ℕ, zero, suc, ◌+◌, ◌*◌, ◌≡◌, ◌==◌, refl, ◌∙◌, List, [], ◌∷◌, some, none, if◌then◌else◌, arith,
}
use osfort.Memory.{Mem, load8, load32, load_bytes}
use osfort.Memory.Laws.{load_bytes_ext}
use osfort.Nvme.{Nvme, initial, cqe_phase, nvme_command_identify}
use osfort.Nvme.Queue.{
  posted, At, Shows, AllShow, nvme_command_identify-At, nvme_command_identify-waits,
}

abbrev empty_mem : Mem
empty_mem x = 0

-- The phase bit of the first completion.
abbrev answered_mem : Mem
answered_mem x = if x == 0x800e then 1 else 0

load_bytes-empty : (n a : ℕ) → load_bytes n empty_mem a ≡ 0
unfolding load_bytes load8
load_bytes-empty zero a = refl
load_bytes-empty (suc n) a = omega (arith, load_bytes-empty n (a + 1))

empty-Shows : Shows 0x8000 0 empty_mem
unfolding Shows cqe_phase posted
empty-Shows i h = omega (arith, load_bytes-empty 4 (0x8000 + 16 * i + 12))

answered-Shows : Shows 0x8000 1 answered_mem
unfolding Shows cqe_phase posted load_bytes load8
answered-Shows zero h = refl
answered-Shows (suc i) h =
    let word : load32 answered_mem (0x8000 + 16 * suc i + 12) ≡ 0 =
      load_bytes_ext 4 answered_mem empty_mem (0x8000 + 16 * suc i + 12) (λ x p q. ground arith)
      ∙ load_bytes-empty 4 (0x8000 + 16 * suc i + 12) in
    ground (arith, word)

start-At : At 0 (initial empty_mem)
unfolding At
start-At = (refl, refl, refl, refl)

empty-AllShow : AllShow 0x8000 0 (empty_mem ∷ empty_mem ∷ [])
unfolding AllShow
empty-AllShow = (empty-Shows, (empty-Shows, tt))

-- A controller that answers at the third round, and one that has not answered after two.
abbrev answers : Mem → List Mem
answers m = empty_mem ∷ empty_mem ∷ answered_mem ∷ []

abbrev idles : Mem → List Mem
idles m = empty_mem ∷ empty_mem ∷ []

nvme_command_identify-At_example :
    (s' : Nvme) × ((nvme_command_identify answers (initial empty_mem) 0x100000 0x4000 0x8000 0x9000
        ≡ some s')
      × At 1 s')
nvme_command_identify-At_example =
    nvme_command_identify-At answers (initial empty_mem) 0x100000 0x4000 0x8000 0x9000 0
      (empty_mem ∷ empty_mem ∷ []) answered_mem [] start-At empty-AllShow answered-Shows refl

nvme_command_identify-waits_example :
    nvme_command_identify idles (initial empty_mem) 0x100000 0x4000 0x8000 0x9000 ≡ none
nvme_command_identify-waits_example =
    nvme_command_identify-waits idles (initial empty_mem) 0x100000 0x4000 0x8000 0x9000 0 start-At
      empty-AllShow
