-- ===== src/Nvme.antt =====
-- dev/nvme/nvme.c and nvme.h: the controller's registers and the admin queues. Registers and queues
-- lie in the memory; a register reads what was written to it.
pub mod Register
pub mod Queue
use osfort.Base.{
  ℕ, zero, suc, ◌+◌, ◌-◌, ◌*◌, ◌/◌, ◌%◌, ◌^◌, Bool, true, false, not, List, [], ◌∷◌, Option, none,
  some, ◌==◌, if◌then◌else◌, bit_and, bit_or, u8, u16, u32, u64, ◌<<<◌, ◌>>>◌,
}
use osfort.Base.Field.{field_get, field_set}
use osfort.Memory.{Mem, load32, store32, store64}
use osfort.Sys.Str.{memset}

abbrev pub admin_queue_entries : ℕ
admin_queue_entries = 32

abbrev pub cap_offset : ℕ
cap_offset = 0x00

-- The words of 32 bits: `tmp & ~((0xFFFFFFFF >> (32 - size)) << offs2) | (value << offs2)`.
unfoldable pub nvme_mmio_write_32 : Mem → ℕ → ℕ → ℕ → ℕ → ℕ → Mem
nvme_mmio_write_32 m addr offs1 offs2 value size =
    let at = u64 (addr + offs1) in store32 m at (field_set 32 (load32 m at) offs2 value size)

unfoldable pub nvme_mmio_read_32 : Mem → ℕ → ℕ → ℕ → ℕ → ℕ
nvme_mmio_read_32 m addr offs1 offs2 size = field_get 32 (load32 m (u64 (addr + offs1))) offs2 size

-- A register of 64 bits is read and written as two words, the low one first.
unfoldable pub read_pair : Mem → ℕ → ℕ
read_pair m at = bit_or (load32 m (u64 (at + 4)) <<< 32) (load32 m at)

unfoldable pub nvme_mmio_write_64 : Mem → ℕ → ℕ → ℕ → ℕ → ℕ → Mem
nvme_mmio_write_64 m addr offs1 offs2 value size =
    let at = u64 (addr + offs1) in
    let tmp = field_set 64 (read_pair m at) offs2 value size in
    let low = bit_and tmp 0xFFFFFFFF in
    let high = tmp >>> 32 in store32 (store32 m at low) (u64 (at + 4)) high

unfoldable pub nvme_mmio_read_64 : Mem → ℕ → ℕ → ℕ → ℕ → ℕ
nvme_mmio_read_64 m addr offs1 offs2 size =
    field_get 64 (read_pair m (u64 (addr + offs1))) offs2 size

-- The driver's static variables, with the memory.
pub record Nvme : Type 0 where
  pub mem : Mem
  pub asq_tail : ℕ
  pub acq_head : ℕ
  pub acq_phase : ℕ
  pub exp_cid : ℕ

abbrev pub initial : Mem → Nvme
initial m = record { mem = m; asq_tail = 0; acq_head = 0; acq_phase = 1; exp_cid = 0x1000 }

-- addr + 0x1000 + ((2 * qid + which) * (4 << dstrd)), with the product of two 32-bit words.
unfoldable pub doorbell_addr : Mem → ℕ → ℕ → ℕ → ℕ
doorbell_addr m addr qid which =
    let dstrd = u8 (nvme_mmio_read_64 m addr cap_offset 32 4) in
    u64 (addr + 0x1000 + u32 (u32 (u32 (2 * qid) + which) * (4 <<< dstrd)))

unfoldable pub nvme_ring_asq_doorbell : Nvme → ℕ → ℕ → Nvme
nvme_ring_asq_doorbell s addr qid =
    let new_tail = u32 (s.asq_tail + 1) % admin_queue_entries in
    record s {
      mem = nvme_mmio_write_32 s.mem (doorbell_addr s.mem addr qid 0) 0 0 new_tail 32;
      asq_tail = new_tail;
    }

unfoldable pub nvme_ring_acq_doorbell : Nvme → ℕ → ℕ → Nvme
nvme_ring_acq_doorbell s addr qid =
    let new_head = u32 (s.acq_head + 1) % admin_queue_entries in
    record s {
      mem = nvme_mmio_write_32 s.mem (doorbell_addr s.mem addr qid 1) 0 0 new_head 32;
      acq_head = new_head;
    }

-- The identify command as it lies in its queue entry: the first dword with the opcode 0x06 and the
-- command's number, the address of the buffer, cns = 1, and 0 elsewhere.
unfoldable pub write_identify : Mem → ℕ → ℕ → ℕ → Mem
write_identify m at cid prp1 =
    let m1 = memset m at 0 64 in
    let m2 = store32 m1 at (0x06 + 2 ^ 16 * u16 cid) in
    let m3 = store64 m2 (at + 24) prp1 in store32 m3 (at + 40) 1

-- cqe->cdw3.p, bit 16 of the last dword of completion queue entry `head`.
unfoldable pub cqe_phase : Mem → ℕ → ℕ → ℕ
cqe_phase m acq head = load32 m (acq + 16 * head + 12) >>> 16 % 2

-- The wait for the entry: the memory at each round, until its phase is the expected one. `none` means
-- that it was not seen yet. Rounds that time out print two fields and go on.
unfoldable pub wait_phase : List Mem → ℕ → ℕ → ℕ → Option Mem
wait_phase [] acq head phase = none
wait_phase (m ∷ ms) acq head phase =
    let rest = wait_phase ms acq head phase in
    if cqe_phase m acq head == phase then some m else rest

-- The part of nvme_command_identify before the wait: the command is queued and the doorbell rung.
-- `asq` is the queue's address and `prp1` what vir_to_phys gives for the buffer.
unfoldable pub submit_identify : Nvme → ℕ → ℕ → ℕ → Nvme
submit_identify s addr asq prp1 =
    let m = write_identify s.mem (asq + 64 * s.asq_tail) s.exp_cid prp1 in
    nvme_ring_asq_doorbell (record s { mem = m }) addr 0

-- The part after it: the doorbell of the completion queue, and at its end the phase turns over.
unfoldable pub finish_identify : Nvme → ℕ → Nvme
finish_identify s addr =
    let s' = nvme_ring_acq_doorbell s addr 0 in
    if s'.acq_head == 0
    then record s' {
      acq_phase = if s'.acq_phase == 0 then 1 else 0;
      exp_cid = u16 (s'.exp_cid + 1);
    }
    else s'

-- What follows from the outcome of the wait.
abbrev pub resume : Nvme → ℕ → Option Mem → Option Nvme
resume s addr none = none
resume s addr (some m) = some (finish_identify (record s { mem = m }) addr)

-- `device` gives the memory at each round of the wait, from the memory that the driver left.
unfoldable pub nvme_command_identify : (Mem → List Mem) → Nvme → ℕ → ℕ → ℕ → ℕ → Option Nvme
nvme_command_identify device s addr asq acq prp1 =
    let s' = submit_identify s addr asq prp1 in
    resume s' addr (wait_phase (device s'.mem) acq s'.acq_head s'.acq_phase)
