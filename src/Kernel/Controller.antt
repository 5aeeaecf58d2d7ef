-- ===== src/Kernel/Controller.antt =====
-- boot/kernel/kernel.c, "Finding Bootdisk and Initialising NVMe": the place of the controller and the
-- fields of its registers that are set, and the waits for it.
pub mod Fields
pub mod Enabled
use osfort.Base.{
  ℕ, ◌+◌, ◌*◌, ◌/◌, ◌%◌, ◌^◌, Bool, true, false, not, List, [], ◌∷◌, Option, none, some, truthy,
  if◌then◌else◌, ◌&&◌, ◌==◌, bit_and, bit_or, u64, ◌<<<◌, ◌>>>◌,
}
use osfort.Memory.{Mem, load32}
use osfort.Nvme.{nvme_mmio_write_32, nvme_mmio_read_32, nvme_mmio_write_64}

-- The configuration space of a function, from the base of its segment's.
unfoldable pub config_space_addr : ℕ → ℕ → ℕ → ℕ → ℕ
config_space_addr base_addr bus dev func =
    u64 (base_addr + u64 (bus <<< 20) + u64 (dev <<< 15) + u64 (func <<< 12))

-- A mass storage device with non-volatile memory.
unfoldable pub is_bootdisk : Mem → ℕ → Bool
is_bootdisk m config =
    let class_code = load32 m (config + 0x08) in
    class_code >>> 24 == 0x01 && bit_and (class_code >>> 16) 0xff == 0x08

-- The first two base address registers, at 0x10 and 0x14 of the configuration space.
unfoldable pub cntl_addr : Mem → ℕ → ℕ
cntl_addr m config =
    bit_or (bit_and (load32 m (config + 0x10)) 0xfffffff0) (u64 (load32 m (config + 0x14) <<< 32))

abbrev pub cc_offset : ℕ
cc_offset = 0x14

abbrev pub aqa_offset : ℕ
aqa_offset = 0x24

abbrev pub asq_offset : ℕ
asq_offset = 0x28

abbrev pub acq_offset : ℕ
acq_offset = 0x30

abbrev pub queue_last : ℕ
queue_last = 31

-- The queues: their sizes, and their addresses, which are put from bit 12 on.
unfoldable pub set_queues : Mem → ℕ → ℕ → ℕ → Mem
set_queues m addr asq acq =
    let m1 = nvme_mmio_write_32 m addr aqa_offset 0 queue_last 12 in
    let m2 = nvme_mmio_write_32 m1 addr aqa_offset 16 queue_last 12 in
    let m3 = nvme_mmio_write_64 m2 addr asq_offset 12 asq 52 in
    nvme_mmio_write_64 m3 addr acq_offset 12 acq 52

-- The fields of the configuration register.
unfoldable pub set_configuration : Mem → ℕ → Mem
set_configuration m addr =
    let m1 = nvme_mmio_write_32 m addr cc_offset 4 0 3 in
    let m2 = nvme_mmio_write_32 m1 addr cc_offset 7 0 4 in
    let m3 = nvme_mmio_write_32 m2 addr cc_offset 11 0 3 in
    let m4 = nvme_mmio_write_32 m3 addr cc_offset 14 0 2 in
    let m5 = nvme_mmio_write_32 m4 addr cc_offset 16 6 4 in
    nvme_mmio_write_32 m5 addr cc_offset 20 4 4

-- What is set between the disabling and the enabling.
unfoldable pub set_registers : Mem → ℕ → ℕ → ℕ → Mem
set_registers m addr asq acq = set_configuration (set_queues m addr asq acq) addr

abbrev pub csts_offset : ℕ
csts_offset = 0x1c

-- The controller is ready.
abbrev pub is_ready : ℕ → Mem → Bool
is_ready addr m = truthy (nvme_mmio_read_32 m addr csts_offset 0 1)

-- The waits: the memory at each round, until the controller is ready, or until it is not. `none` means
-- that this was not seen yet.
unfoldable pub wait_ready : Bool → ℕ → List Mem → Option Mem
wait_ready wanted addr [] = none
wait_ready wanted addr (m ∷ ms) =
    let rest = wait_ready wanted addr ms in
    if (if wanted then is_ready addr m else not (is_ready addr m)) then some m else rest

-- The controller is disabled, set up and enabled. `device` gives the memories of the rounds of a wait
-- from the memory before it.
unfoldable pub init_controller : (Mem → List Mem) → Mem → ℕ → ℕ → ℕ → Option Mem
init_controller device m addr asq acq =
    let m1 = nvme_mmio_write_32 m addr cc_offset 0 0 1 in
    elim (wait_ready false addr (device m1)) as (λ _. Option Mem) [
      | none ↦ none
      | some m2 ↦
          let m3 = set_registers m2 addr asq acq in
          wait_ready true addr (device (nvme_mmio_write_32 m3 addr cc_offset 0 1 1))
    ]
