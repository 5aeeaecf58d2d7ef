-- ===== src/Kernel/Space/Steps.antt =====
-- boot/kernel/kernel.c 75 to 88: the calls that map memory, one at a time.
use osfort.Base.{ℕ, ◌+◌, ◌*◌, ◌/◌, ◌^◌, ◌≤◌, ◌<◌, ◌≡◌, inl, ap, ◌∙◌, some, u64, arith}
use osfort.Memory.{Mem}
use osfort.Memory.Laws.{load_bytes-lt}
use osfort.Acpi.{acpi_get_table, local_apic_addr_at}
use osfort.Paging.{page_size, Pages}
use osfort.Paging.Table.Invariant.{walk}
use osfort.Paging.Table.Lock.{IsOffEnd}
use osfort.Paging.Table.Map.{page_of}
use osfort.Kernel.Space.{
  Machine, kernel_base, framebuffer_pages, image_pages, map_memory, map_framebuffer, map_kernel,
  apic_base_of, map_apic, mcfg_of, mcfg_pages, map_mcfg,
}
use osfort.Kernel.Space.Stage.{
  Stage, cost, Sees, Identity, Keeps, map_pages-Stage, lock_pages-Stage, map_pages-Identity,
  map_page-Identity,
}

pub apic_base_of-lt : (c : Machine) (m : Mem) → apic_base_of c m < 2 ^ 32
apic_base_of-lt c m =
    omega (arith, load_bytes-lt 4 m (acpi_get_table m c.xsdt c.apic_name + local_apic_addr_at))

-- The steps on any state at a stage.
module _ {m0 : Mem} {Out : ℕ → Type 0} {root frames n pml4 : ℕ} {s : Pages} (c : Machine)
    (stage : Stage m0 Out root frames n s) (at : pml4 ≡ root * page_size) where
  pub map_framebuffer-Stage :
      c.framebuffer_base + framebuffer_pages c * page_size ≤ 2 ^ 47
      → IsOffEnd frames c.framebuffer_base (framebuffer_pages c)
      → n + framebuffer_pages c + cost c.framebuffer_base (framebuffer_pages c) + 6 ≤ frames
      → let s' = map_framebuffer c pml4 s in
        Stage m0 Out root frames
          (n + framebuffer_pages c + cost c.framebuffer_base (framebuffer_pages c) + 3)
          s'
        × (Identity root c.framebuffer_base (framebuffer_pages c) s' × Keeps root s s')
  unfolding map_framebuffer
  map_framebuffer-Stage low off room =
      let (locked, same) =
        lock_pages-Stage stage c.framebuffer_base (framebuffer_pages c) (omega (arith, low)) off in
      let (mapped, (own, keeps)) =
        map_pages-Identity c.framebuffer_base (framebuffer_pages c) locked low room in
      rw at (mapped, (own, λ w f lasting sees. keeps w f lasting (same w ∙ sees)))

  pub map_kernel-Stage :
      c.kernel_start + image_pages c * page_size ≤ 2 ^ 32
      → n + cost (u64 (kernel_base + c.kernel_start)) (image_pages c) + 6 ≤ frames
      → let s' = map_kernel c pml4 s in
        Stage m0 Out root frames
          (n + cost (u64 (kernel_base + c.kernel_start)) (image_pages c) + 3)
          s'
        × (((k : ℕ)
              → k < image_pages c
              → Sees root s'
                  (page_of (u64 (kernel_base + c.kernel_start)) + k)
                  (c.kernel_start / page_size + k))
            × ((w : ℕ) → w < 2 ^ 35 → walk s'.mem 4 root w ≡ walk s.mem 4 root w))
  unfolding map_kernel
  map_kernel-Stage low room =
      let vir = u64 (kernel_base + c.kernel_start) in
      let exact : vir ≡ kernel_base + c.kernel_start = omega (arith, low) in
      let (mapped, run) =
        map_pages-Stage stage vir c.kernel_start (image_pages c)
          (record {
            vir_fits = omega (arith, low, exact);
            phys_fits = omega (arith, low);
            pages = omega (arith, low, exact);
          })
          room in
      rw at (
        mapped,
        (
          λ k h. run.mapped k h ∙ ap some (omega (arith, low, h)),
          λ w h. run.others w (omega arith) (inl (omega (arith, h, exact, low))),
        ),
      )

  pub map_memory-Stage :
      (pages : ℕ)
      → pages * page_size ≤ 2 ^ 47
      → n + cost 0 pages + 6 ≤ frames
      → let s' = map_memory pages (s, pml4) in
        Stage m0 Out root frames (n + cost 0 pages + 3) s'
        × (Identity root 0 pages s' × Keeps root s s')
  unfolding map_memory
  map_memory-Stage pages low room =
      rw at (map_pages-Identity 0 pages stage (omega (arith, low)) room)

  pub map_apic-Stage :
      (base : ℕ)
      → apic_base_of c s.mem ≡ base
      → n + cost base 1 + 6 ≤ frames
      → let s' = map_apic c pml4 s in
        Stage m0 Out root frames (n + cost base 1 + 3) s'
        × (Identity root base 1 s' × Keeps root s s')
  unfolding map_apic
  map_apic-Stage base e room =
      let low = apic_base_of-lt c s.mem in
      rw (at, e) (map_page-Identity base stage (omega (arith, e, low)) room)

  pub map_mcfg-Stage :
      (base pages : ℕ)
      → mcfg_of c s.mem ≡ base
      → mcfg_pages c s.mem ≡ pages
      → base + pages * page_size ≤ 2 ^ 47
      → n + cost base pages + 6 ≤ frames
      → let s' = map_mcfg c pml4 s in
        Stage m0 Out root frames (n + cost base pages + 3) s'
        × (Identity root base pages s' × Keeps root s s')
  unfolding map_mcfg
  map_mcfg-Stage base pages e e' low room =
      rw (at, e', e) (map_pages-Identity base pages stage low room)
