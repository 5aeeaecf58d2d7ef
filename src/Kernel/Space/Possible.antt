-- ===== src/Kernel/Space/Possible.antt =====
-- boot/kernel/kernel.c 72 to 88: machines on which the set-up of paging succeeds, and its start.
use osfort.Base.{
  ℕ, ◌+◌, ◌*◌, ◌/◌, ◌%◌, ◌^◌, ◌≤◌, ◌<◌, ◌≡◌, ◌≢◌, ◌⊎◌, inl, inr, refl, ap, ◌∙◌, u64, arith,
}
use osfort.Memory.{Mem, load32}
use osfort.Memory.Laws.{load_bytes_ext}
use osfort.Acpi.{acpi_get_table, local_apic_addr_at, len_at}
use osfort.Acpi.Frame.{IsReadable, acpi_get_table_same}
use osfort.Bitmap.{Bitmap}
use osfort.Paging.{page_size, Pages}
use osfort.Paging.Account.{marked}
use osfort.Paging.Table.Fresh.{MapTaken}
use osfort.Paging.Table.Invariant.{IsForeign}
use osfort.Paging.Table.Lock.{IsOffEnd}
use osfort.Paging.Table.Map.{page_of}
use osfort.Paging.Table.Root.{root_lv, req_page-IsRooted}
use osfort.Kernel.Memory.{MemoryMap, init_pages, reserve_memory, descriptor, conventional, entries}
use osfort.Kernel.Memory.Marking.{Run}
use osfort.Kernel.Memory.Reserved.{map_of, frames, total-lt, IsRoomy, reserve_memory-IsSecure}
use osfort.Kernel.Space.{
  Machine, kernel_base, memory_pages, framebuffer_pages, image_pages, root_of, apic_base_of,
  mcfg_of, mcfg_pages,
}
use osfort.Kernel.Space.Stage.{Stage, cost, Sees, Identity}

module _ (m : Mem) (mmap : MemoryMap) (c : Machine) where
  -- A byte that the set-up does not touch: it is not the allocator's map's, and its frame is one of a
  -- region that is not conventional memory, or one that the map does not cover.
  abbrev pub IsUntouched : ℕ → Type 0
  IsUntouched x =
      ((x < (map_of m mmap).buffer) ⊎ ((map_of m mmap).buffer + (map_of m mmap).size ≤ x))
      × (((i : ℕ) × (i < entries mmap)
            × ((descriptor m mmap i).kind ≢ conventional)
            × Run (descriptor m mmap i).phys_addr (descriptor m mmap i).num_pages (x / page_size))
          ⊎ (frames m mmap ≤ x / page_size))

  abbrev pub apic_base : ℕ
  apic_base = apic_base_of c m

  abbrev pub mcfg : ℕ
  mcfg = mcfg_of c m

  abbrev pub table_pages : ℕ
  table_pages = mcfg_pages c m

  abbrev pub kernel_vir : ℕ
  kernel_vir = u64 (kernel_base + c.kernel_start)

  -- A machine for the set-up: the allocator's map begins at a page and covers at most 2 ^ 28 frames,
  -- the frame buffer and the table of configuration spaces lie in the lower half, the frame buffer
  -- does not meet the bit behind the map's last, the kernel lies below 2 ^ 32, there are frames for
  -- all tables, and the set-up does not touch what it reads of the firmware's tables.
  pub record IsPossible : Type 0 where
    pub roomy : IsRoomy m mmap c.kernel_start c.kernel_end
    pub aligned : (map_of m mmap).buffer % page_size ≡ 0
    pub small : frames m mmap ≤ 2 ^ 28
    pub framebuffer_low : c.framebuffer_base + framebuffer_pages c * page_size ≤ 2 ^ 47
    pub framebuffer_off : IsOffEnd (frames m mmap) c.framebuffer_base (framebuffer_pages c)
    pub kernel_low : c.kernel_start + image_pages c * page_size ≤ 2 ^ 32
    pub mcfg_low : mcfg + table_pages * page_size ≤ 2 ^ 47
    pub room :
        marked (reserve_memory m mmap c.kernel_start c.kernel_end)
          + cost 0 (memory_pages m mmap)
          + framebuffer_pages c
          + cost c.framebuffer_base (framebuffer_pages c)
          + cost kernel_vir (image_pages c)
          + cost apic_base 1
          + cost mcfg table_pages
          + 22
        ≤ frames m mmap
    pub apic_readable : IsReadable IsUntouched m c.xsdt c.apic_name
    pub mcfg_readable : IsReadable IsUntouched m c.xsdt c.mcfg_name
    pub madt_field :
        (x : ℕ)
        → acpi_get_table m c.xsdt c.apic_name + local_apic_addr_at ≤ x
        → x < acpi_get_table m c.xsdt c.apic_name + local_apic_addr_at + 4
        → IsUntouched x
    pub mcfg_field : (x : ℕ) → mcfg + len_at ≤ x → x < mcfg + len_at + 4 → IsUntouched x

  -- As many pages from 0 on as all regions have, the frame buffer, the registers of the local APIC and the table of configuration
  -- spaces are mapped to themselves, the kernel's image from KERNEL_START + _kernel_start on, and the
  -- bytes above are untouched.
  pub record IsSpace (r : Pages × ℕ) : Type 0 where
    pub root : ℕ
    pub pml4 : r.1 ≡ root * page_size
    pub memory : Identity root 0 (memory_pages m mmap) r.0
    pub framebuffer : Identity root c.framebuffer_base (framebuffer_pages c) r.0
    pub kernel :
        (k : ℕ)
        → k < image_pages c
        → Sees root r.0 (page_of kernel_vir + k) (c.kernel_start / page_size + k)
    pub apic : Identity root apic_base 1 r.0
    pub tables : Identity root mcfg table_pages r.0
    pub untouched : (x : ℕ) → IsUntouched x → r.0.mem x ≡ m x

  reserved-MapTaken : IsPossible → MapTaken (reserve_memory m mmap c.kernel_start c.kernel_end)
  reserved-MapTaken possible =
      let secure = reserve_memory-IsSecure m mmap c.kernel_start c.kernel_end possible.roomy in
      let size = ap (λ (b : Bitmap). b.size) secure.same_map in
      let buffer = ap (λ (b : Bitmap). b.buffer) secure.same_map in
      λ x p q. (
        omega (arith, possible.roomy.own, possible.aligned, size, buffer, p, q),
        secure.own (x / page_size)
            (omega (arith, buffer, p), omega (arith, possible.aligned, size, buffer, p, q)),
      )

  reserved-IsForeign :
      IsPossible
      → (x : ℕ) → IsUntouched x
      → IsForeign (λ _. 0) (reserve_memory m mmap c.kernel_start c.kernel_end) x
  reserved-IsForeign possible x (apart, owned) =
      let secure = reserve_memory-IsSecure m mmap c.kernel_start c.kernel_end possible.roomy in
      let size = ap (λ (b : Bitmap). b.size) secure.same_map in
      let buffer = ap (λ (b : Bitmap). b.buffer) secure.same_map in
      record {
        apart = omega (arith, apart, size, buffer);
        no_table = refl;
        owned = elim owned [
          | inl (i, below, other, run) ↦ inl (secure.regions i (x / page_size) below other run)
          | inr far ↦ inr (omega (arith, far, size))
        ];
      }

  pub root_of-Stage :
      IsPossible
      → (root : ℕ) × ((root_of m mmap c).1 ≡ root * page_size)
        × Stage m IsUntouched root
            (frames m mmap)
            (marked (reserve_memory m mmap c.kernel_start c.kernel_end) + 1)
            (root_of m mmap c).0
  unfolding root_of
  root_of-Stage possible =
      let secure = reserve_memory-IsSecure m mmap c.kernel_start c.kernel_end possible.roomy in
      let extent = secure.accounted.extent in
      let (root, at, is_tables, same, grown, foreign) =
        req_page-IsRooted (reserve_memory m mmap c.kernel_start c.kernel_end)
          (omega (arith, extent, possible.small)) (reserved-MapTaken possible)
          (omega (arith, extent, possible.room)) in
      (
        root,
        at,
        record {
          lv = root_lv root;
          px = λ _. 0;
          is_tables = is_tables;
          extent = ap (λ (b : Bitmap). b.size * 8) same ∙ extent;
          used = grown;
          foreign = λ x out. foreign.stays x (reserved-IsForeign possible x out);
          same = λ x out. foreign.same x (reserved-IsForeign possible x out) ∙ secure.frame x out.0;
        },
      )

  -- The firmware's tables as they are read later.
  pub apic_base_same :
      IsPossible
      → (m' : Mem) → ((x : ℕ) → IsUntouched x → m' x ≡ m x)
      → apic_base_of c m' ≡ apic_base
  apic_base_same possible m' same =
      ap (λ (a : ℕ). load32 m' (a + local_apic_addr_at))
        (acpi_get_table_same m m' c.xsdt c.apic_name possible.apic_readable same)
      ∙ load_bytes_ext 4 m' m _ (λ x p q. same x (possible.madt_field x p q))

  pub mcfg_same :
      IsPossible → (m' : Mem) → ((x : ℕ) → IsUntouched x → m' x ≡ m x) → mcfg_of c m' ≡ mcfg
  mcfg_same possible m' same =
      acpi_get_table_same m m' c.xsdt c.mcfg_name possible.mcfg_readable same

  pub mcfg_pages_same :
      IsPossible
      → (m' : Mem) → ((x : ℕ) → IsUntouched x → m' x ≡ m x)
      → mcfg_pages c m' ≡ table_pages
  mcfg_pages_same possible m' same =
      ap (λ (t : ℕ). t / page_size + 1)
        (ap (λ (a : ℕ). load32 m' (a + len_at)) (mcfg_same possible m' same)
          ∙ load_bytes_ext 4 m' m _ (λ x p q. same x (possible.mcfg_field x p q)))

  pub memory_pages-le : memory_pages m mmap ≤ frames m mmap
  unfolding init_pages
  memory_pages-le = omega (arith, total-lt m mmap)
