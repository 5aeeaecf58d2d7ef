-- ===== src/Kernel/Controller/Fields.antt =====
-- boot/kernel/kernel.c 153 to 162: the fields of the controller's registers.
use osfort.Base.{ℕ, ◌+◌, ◌^◌, ◌≤◌, ◌<◌, ◌≡◌, ◌⊎◌, inl, inr, ap, ◌∙◌, u64, arith}
use osfort.Base.Field.{field_get}
use osfort.Memory.{Mem}
use osfort.Memory.Laws.{load_bytes_ext}
use osfort.Nvme.{
  nvme_mmio_write_32, nvme_mmio_read_32, read_pair, nvme_mmio_write_64, nvme_mmio_read_64,
}
use osfort.Nvme.Register.{nvme_mmio_read_32-write_32, nvme_mmio_read_64-write_64}
use osfort.Kernel.Controller.{
  cc_offset, aqa_offset, asq_offset, acq_offset, queue_last, set_queues, set_configuration,
  set_registers,
}

module _ (addr : ℕ) (fits : addr + 0x1000 ≤ 2 ^ 64) where
  -- A field reads the same in two memories that agree on the register.
  pub read_32_ext :
      (m m' : Mem) (offs o k : ℕ)
      → offs ≤ 0x100
      → ((x : ℕ) → addr + offs ≤ x → x < addr + offs + 4 → m x ≡ m' x)
      → nvme_mmio_read_32 m addr offs o k ≡ nvme_mmio_read_32 m' addr offs o k
  unfolding nvme_mmio_read_32
  read_32_ext m m' offs o k small same =
      let e : u64 (addr + offs) ≡ addr + offs = omega arith in
      rw e (ap (λ (t : ℕ). field_get 32 t o k) (load_bytes_ext 4 m m' (addr + offs) same))

  pub read_64_ext :
      (m m' : Mem) (offs o k : ℕ)
      → offs ≤ 0x100
      → ((x : ℕ) → addr + offs ≤ x → x < addr + offs + 8 → m x ≡ m' x)
      → nvme_mmio_read_64 m addr offs o k ≡ nvme_mmio_read_64 m' addr offs o k
  unfolding nvme_mmio_read_64 read_pair
  read_64_ext m m' offs o k small same =
      let e : u64 (addr + offs) ≡ addr + offs = omega arith in
      let e' : u64 (addr + offs + 4) ≡ addr + offs + 4 = omega arith in
      rw (e, e')
        (cc (
          load_bytes_ext 4 m m' (addr + offs) (λ x p q. same x (omega arith) (omega arith)),
          load_bytes_ext 4 m m' (addr + offs + 4) (λ x p q. same x (omega arith) (omega arith)),
        ))

  -- One write: the field itself, another one of the register, and the memory outside.
  module _ (m : Mem) (offs o v k : ℕ) (low : offs ≤ 0x100) (small : v < 2 ^ k)
      (some_bit : 0 < k) where
    pub here_32 :
        o + k ≤ 31 → nvme_mmio_read_32 (nvme_mmio_write_32 m addr offs o v k) addr offs o k ≡ v
    here_32 inside =
        (nvme_mmio_read_32-write_32 m addr offs o v k small 31 1 (addr + offs + 4) some_bit
          (omega arith) (omega arith) (omega arith) (inr (omega arith)) (inr (omega arith))).0

    pub other_32 :
        (o' k' : ℕ)
        → o + k ≤ 31
        → 0 < k'
        → o' + k' ≤ 32
        → (o' + k' ≤ o) ⊎ (o + k ≤ o')
        → nvme_mmio_read_32 (nvme_mmio_write_32 m addr offs o v k) addr offs o' k'
          ≡ nvme_mmio_read_32 m addr offs o' k'
    other_32 o' k' inside some_bit' inside' apart =
        (nvme_mmio_read_32-write_32 m addr offs o v k small o' k' (addr + offs + 4) some_bit
          (omega arith) some_bit' inside' apart (inr (omega arith))).1

    pub outside_32 :
        (x : ℕ)
        → o + k ≤ 31
        → (x < addr + offs) ⊎ (addr + offs + 4 ≤ x)
        → nvme_mmio_write_32 m addr offs o v k x ≡ m x
    outside_32 x inside out =
        (nvme_mmio_read_32-write_32 m addr offs o v k small 31 1 x some_bit (omega arith)
          (omega arith) (omega arith) (inr (omega arith)) (omega arith)).2

    here_64 :
        1 ≤ o
        → o + k ≤ 64
        → nvme_mmio_read_64 (nvme_mmio_write_64 m addr offs o v k) addr offs o k ≡ v
    here_64 room inside =
        (nvme_mmio_read_64-write_64 m addr offs o v k small 0 1 (addr + offs + 8) some_bit inside
          (omega arith) (omega arith) (omega arith) (inl (omega arith)) (inr (omega arith))).0

    outside_64 :
        (x : ℕ)
        → 1 ≤ o
        → o + k ≤ 64
        → (x < addr + offs) ⊎ (addr + offs + 8 ≤ x)
        → nvme_mmio_write_64 m addr offs o v k x ≡ m x
    outside_64 x room inside out =
        (nvme_mmio_read_64-write_64 m addr offs o v k small 0 1 x some_bit inside (omega arith)
          (omega arith) (omega arith) (inl (omega arith)) out).2

  configuration_frame :
      (m : Mem) (x : ℕ)
      → (x < addr + cc_offset) ⊎ (addr + cc_offset + 4 ≤ x)
      → set_configuration m addr x ≡ m x
  unfolding set_configuration
  configuration_frame m x out =
      outside_32 _ cc_offset 20 4 4 (omega arith) (omega arith) (omega arith) x (omega arith) out
      ∙ outside_32 _ cc_offset 16 6 4 (omega arith) (omega arith) (omega arith) x (omega arith) out
      ∙ outside_32 _ cc_offset 14 0 2 (omega arith) (omega arith) (omega arith) x (omega arith) out
      ∙ outside_32 _ cc_offset 11 0 3 (omega arith) (omega arith) (omega arith) x (omega arith) out
      ∙ outside_32 _ cc_offset 7 0 4 (omega arith) (omega arith) (omega arith) x (omega arith) out
      ∙ outside_32 m cc_offset 4 0 3 (omega arith) (omega arith) (omega arith) x (omega arith) out

  -- The command set, the arbitration and the shutdown notice, the size of a page and of the entries.
  configuration_fields :
      (m : Mem)
      → let r = set_configuration m addr in
        (nvme_mmio_read_32 r addr cc_offset 4 3 ≡ 0)
        × (nvme_mmio_read_32 r addr cc_offset 11 3 ≡ 0)
        × (nvme_mmio_read_32 r addr cc_offset 14 2 ≡ 0)
        × (nvme_mmio_read_32 r addr cc_offset 7 4 ≡ 0)
        × (nvme_mmio_read_32 r addr cc_offset 16 4 ≡ 6)
        × (nvme_mmio_read_32 r addr cc_offset 20 4 ≡ 4)
  unfolding set_configuration
  configuration_fields m =
      let m1 = nvme_mmio_write_32 m addr cc_offset 4 0 3 in
      let m2 = nvme_mmio_write_32 m1 addr cc_offset 7 0 4 in
      let m3 = nvme_mmio_write_32 m2 addr cc_offset 11 0 3 in
      let m4 = nvme_mmio_write_32 m3 addr cc_offset 14 0 2 in
      let m5 = nvme_mmio_write_32 m4 addr cc_offset 16 6 4 in
      let r = nvme_mmio_write_32 m5 addr cc_offset 20 4 4 in
      let last2 : (o k : ℕ)
          → o + k ≤ 16
          → 0 < k
          → nvme_mmio_read_32 r addr cc_offset o k ≡ nvme_mmio_read_32 m4 addr cc_offset o k =
        λ o k below some_bit.
          other_32 m5 cc_offset 20 4 4 (omega arith) (omega arith) (omega arith) o k (omega arith)
            some_bit (omega (arith, below)) (inl (omega (arith, below)))
          ∙ other_32 m4 cc_offset 16 6 4 (omega arith) (omega arith) (omega arith) o k (omega arith)
              some_bit (omega (arith, below)) (inl (omega (arith, below))) in
      let last4 : (o k : ℕ)
          → o + k ≤ 11
          → 0 < k
          → nvme_mmio_read_32 r addr cc_offset o k ≡ nvme_mmio_read_32 m2 addr cc_offset o k =
        λ o k below some_bit.
          last2 o k (omega (arith, below)) some_bit
          ∙ other_32 m3 cc_offset 14 0 2 (omega arith) (omega arith) (omega arith) o k (omega arith)
              some_bit (omega (arith, below)) (inl (omega (arith, below)))
          ∙ other_32 m2 cc_offset 11 0 3 (omega arith) (omega arith) (omega arith) o k (omega arith)
              some_bit (omega (arith, below)) (inl (omega (arith, below))) in
      (
        last4 4 3 (omega arith) (omega arith)
            ∙ other_32 m1 cc_offset 7 0 4 (omega arith) (omega arith) (omega arith) 4 3
                (omega arith) (omega arith) (omega arith) (inl (omega arith))
            ∙ here_32 m cc_offset 4 0 3 (omega arith) (omega arith) (omega arith) (omega arith),
        last2 11 3 (omega arith) (omega arith)
            ∙ other_32 m3 cc_offset 14 0 2 (omega arith) (omega arith) (omega arith) 11 3
                (omega arith) (omega arith) (omega arith) (inl (omega arith))
            ∙ here_32 m2 cc_offset 11 0 3 (omega arith) (omega arith) (omega arith) (omega arith),
        last2 14 2 (omega arith) (omega arith)
            ∙ here_32 m3 cc_offset 14 0 2 (omega arith) (omega arith) (omega arith) (omega arith),
        last4 7 4 (omega arith) (omega arith)
            ∙ here_32 m1 cc_offset 7 0 4 (omega arith) (omega arith) (omega arith) (omega arith),
        other_32 m5 cc_offset 20 4 4 (omega arith) (omega arith) (omega arith) 16 4 (omega arith)
              (omega arith) (omega arith) (inl (omega arith))
            ∙ here_32 m4 cc_offset 16 6 4 (omega arith) (omega arith) (omega arith) (omega arith),
        here_32 m5 cc_offset 20 4 4 (omega arith) (omega arith) (omega arith) (omega arith),
      )

  module _ (m : Mem) (asq acq : ℕ) (asq_small : asq < 2 ^ 52) (acq_small : acq < 2 ^ 52) where
    abbrev m2 : Mem
    m2 =
        nvme_mmio_write_32 (nvme_mmio_write_32 m addr aqa_offset 0 queue_last 12) addr aqa_offset 16
          queue_last 12

    abbrev m3 : Mem
    m3 = nvme_mmio_write_64 m2 addr asq_offset 12 asq 52

    -- The sizes of the queues are not touched by the addresses.
    sizes_kept :
        (o k : ℕ)
        → nvme_mmio_read_32 (set_queues m addr asq acq) addr aqa_offset o k
          ≡ nvme_mmio_read_32 m2 addr aqa_offset o k
    unfolding set_queues
    sizes_kept o k = read_32_ext _ m2 aqa_offset o k (omega arith) (λ x p q.
        outside_64 m3 acq_offset 12 acq 52 (omega arith) acq_small (omega arith) x (omega arith)
          (omega arith) (inl (omega arith))
        ∙ outside_64 m2 asq_offset 12 asq 52 (omega arith) asq_small (omega arith) x (omega arith)
            (omega arith) (inl (omega arith)))

    queue_fields :
        let r = set_queues m addr asq acq in
        (nvme_mmio_read_32 r addr aqa_offset 0 12 ≡ queue_last)
        × (nvme_mmio_read_32 r addr aqa_offset 16 12 ≡ queue_last)
        × (nvme_mmio_read_64 r addr asq_offset 12 52 ≡ asq)
        × (nvme_mmio_read_64 r addr acq_offset 12 52 ≡ acq)
    unfolding set_queues
    queue_fields = (
      sizes_kept 0 12
          ∙ other_32 _ aqa_offset 16 queue_last 12 (omega arith) (omega arith) (omega arith) 0 12
              (omega arith) (omega arith) (omega arith) (inl (omega arith))
          ∙ here_32 m aqa_offset 0 queue_last 12 (omega arith) (omega arith) (omega arith)
              (omega arith),
      sizes_kept 16 12
          ∙ here_32 _ aqa_offset 16 queue_last 12 (omega arith) (omega arith) (omega arith)
              (omega arith),
      read_64_ext _ m3 asq_offset 12 52 (omega arith) (λ x p q.
            outside_64 m3 acq_offset 12 acq 52 (omega arith) acq_small (omega arith) x (omega arith)
              (omega arith) (inl (omega arith)))
          ∙ here_64 m2 asq_offset 12 asq 52 (omega arith) asq_small (omega arith) (omega arith)
              (omega arith),
      here_64 m3 acq_offset 12 acq 52 (omega arith) acq_small (omega arith) (omega arith)
          (omega arith),
    )

-- What the controller is told: the command set, the arbitration and no shutdown, the size of a page and of the queues' entries, the number of entries
-- of both queues less one, and their addresses in pages, for which the code gives them in bytes.
pub record IsSetUp (addr asq acq : ℕ) (r : Mem) : Type 0 where
  pub command_set : nvme_mmio_read_32 r addr cc_offset 4 3 ≡ 0
  pub arbitration : nvme_mmio_read_32 r addr cc_offset 11 3 ≡ 0
  pub shutdown : nvme_mmio_read_32 r addr cc_offset 14 2 ≡ 0
  pub page : nvme_mmio_read_32 r addr cc_offset 7 4 ≡ 0
  pub submission_entry : nvme_mmio_read_32 r addr cc_offset 16 4 ≡ 6
  pub completion_entry : nvme_mmio_read_32 r addr cc_offset 20 4 ≡ 4
  pub submission_last : nvme_mmio_read_32 r addr aqa_offset 0 12 ≡ queue_last
  pub completion_last : nvme_mmio_read_32 r addr aqa_offset 16 12 ≡ queue_last
  pub submission_page : nvme_mmio_read_64 r addr asq_offset 12 52 ≡ asq
  pub completion_page : nvme_mmio_read_64 r addr acq_offset 12 52 ≡ acq

-- For registers that end below 2 ^ 64, and queues at byte addresses below 2 ^ 52: after the set-up the
-- controller's fields hold the command set 0, the arbitration 0, no shutdown notice, pages of 4096 bytes, entries of 2 ^ 6 and 2 ^ 4 bytes and 32 of each, and as
-- the page numbers of the queues their addresses in bytes.
pub set_registers-IsSetUp :
    (m : Mem) (addr asq acq : ℕ)
    → addr + 0x1000 ≤ 2 ^ 64
    → asq < 2 ^ 52
    → acq < 2 ^ 52
    → IsSetUp addr asq acq (set_registers m addr asq acq)
unfolding set_registers
set_registers-IsSetUp m addr asq acq fits asq_small acq_small =
    let q = set_queues m addr asq acq in
    let r = set_configuration q addr in
    let (a, b, c, d) = queue_fields addr fits m asq acq asq_small acq_small in
    let (nvm, round, none_sent, page, six, four) = configuration_fields addr fits q in
    let same : (x : ℕ) → addr + 0x24 ≤ x → r x ≡ q x =
      λ x p. configuration_frame addr fits q x (inr (omega arith)) in
    record {
      command_set = nvm;
      arbitration = round;
      shutdown = none_sent;
      page = page;
      submission_entry = six;
      completion_entry = four;
      submission_last =
          read_32_ext addr fits r q aqa_offset 0 12 (omega arith) (λ x p h. same x p) ∙ a;
      completion_last =
          read_32_ext addr fits r q aqa_offset 16 12 (omega arith) (λ x p h. same x p) ∙ b;
      submission_page =
          read_64_ext addr fits r q asq_offset 12 52 (omega arith) (λ x p h. same x (omega arith))
          ∙ c;
      completion_page =
          read_64_ext addr fits r q acq_offset 12 52 (omega arith) (λ x p h. same x (omega arith))
          ∙ d;
    }
