-- ===== src/Tests/Devices.antt =====
-- The interrupt table, the firmware's tables and the timer at concrete machines.
use osfort.Base.{
  Bool, true, false, ◌∷◌, ◌<◌, ◌^◌, ap, ◌∙◌, inl, truthy, ◌+◌, ◌≡◌, ◌==◌, refl, List, [], some,
  if◌then◌else◌, arith,
}
use osfort.Memory.{Mem, load8, load32}
use osfort.Paging.{Pages}
use osfort.Paging.Account.{marked}
use osfort.Paging.Count.{count}
use osfort.Kernel.Idt.{Handlers, set_gates}
use osfort.Kernel.Idt.Installed.{IsWords, IsLoaded, set_gates-IsLoaded}
use osfort.Nvme.{nvme_mmio_write_32, nvme_mmio_read_32}
use osfort.Kernel.Controller.{csts_offset, cc_offset, is_ready, init_controller}
use osfort.Kernel.Controller.Fields.{IsSetUp, here_32, outside_32}
use osfort.Kernel.Controller.Enabled.{is_enabled, IsController, init_controller-IsSetUp}
use osfort.Machine.{Out}
use osfort.Acpi.{Ports, entries, acpi_get_table, acpi_set_apic_timer, local_apic_addr_at}
use osfort.Acpi.Search.{Found, acpi_get_table-Found}
use osfort.Acpi.Timer.{IsStopped, acpi_set_apic_timer-IsStopped}

-- Sixteen frames, the first of them taken.
abbrev start : Pages
start = record {
  page_bitmap = record {
    bitmap = record { buffer = 0x100; size = 2 };
    free = 0xf000;
    reserved = 0x1000;
    used = 0;
  };
  mem = λ x. if x == 0x100 then 1 else 0;
}

abbrev handlers : Handlers
handlers = record {
  timer = 0x201000;
  keyboard = 0x201100;
  spurious_irq = 0x201200;
  int_2b = 0x201300;
  pf = 0x201400;
  df = 0x201500;
  gp = 0xffff800000201600;
}

handlers-IsWords : IsWords handlers
handlers-IsWords = record {
  timer = omega arith;
  keyboard = omega arith;
  spurious_irq = omega arith;
  int_2b = omega arith;
  pf = omega arith;
  df = omega arith;
  gp = omega arith;
}

start-marked : marked start ≡ 1
unfolding count load8
start-marked = refl

set_gates-IsLoaded_example : IsLoaded start handlers (set_gates start handlers)
set_gates-IsLoaded_example =
    set_gates-IsLoaded start handlers (omega arith) (omega (arith, start-marked)) handlers-IsWords

-- A root table at 0x100 with one entry, the table "APIC" at 0x200, and the name at 0x300.
abbrev firmware : Mem
firmware x =
    if x == 0x104
    then 44
    else if x == 0x125
    then 2
    else if x == 0x200
    then b'A'
    else if x == 0x300
    then b'A'
    else 0

acpi_get_table-Found_example :
    Found firmware 0x100 0x300 0 (entries firmware 0x100) (acpi_get_table firmware 0x100 0x300)
acpi_get_table-Found_example = acpi_get_table-Found firmware 0x100 0x300

-- Ports that always give 0x20, and a description at 0x400 of a controller at 0xfee00000.
abbrev ports : Ports
ports outs port n = 0x20

abbrev apic : Mem
apic x = if x == 0x426 then 0xe0 else if x == 0x427 then 0xfe else 0

acpi_set_apic_timer-IsStopped_example :
    (r : Mem) × (o : List Out) × (acpi_set_apic_timer 1 ports apic [] 0x400 100 ≡ some (r, o))
    × IsStopped apic (load32 apic (0x400 + local_apic_addr_at)) r
acpi_set_apic_timer-IsStopped_example =
    acpi_set_apic_timer-IsStopped 0 ports apic [] 0x400 100 (omega arith)

-- A controller that shows at once whether it is enabled.
abbrev follower : Mem → List Mem
follower m = nvme_mmio_write_32 m 0x1000 csts_offset 0 (if is_enabled 0x1000 m then 1 else 0) 1 ∷ []

status_small : (b : Bool) → (if b then 1 else 0) < 2 ^ 1
status_small true = omega arith
status_small false = omega arith

status_truthy : (b : Bool) → truthy (if b then 1 else 0) ≡ b
status_truthy true = refl
status_truthy false = refl

follower-IsController : IsController 0x1000 follower
follower-IsController = record {
  follows = λ m. inl (
      ap truthy (
        here_32 0x1000 (omega arith) m csts_offset 0 (if is_enabled 0x1000 m then 1 else 0) 1
          (omega arith) (status_small (is_enabled 0x1000 m)) (omega arith) (omega arith))
      ∙ status_truthy (is_enabled 0x1000 m));
  keeps = λ m. (
    λ x h.
        outside_32 0x1000 (omega arith) m csts_offset 0 (if is_enabled 0x1000 m then 1 else 0) 1
          (omega arith) (status_small (is_enabled 0x1000 m)) (omega arith) x (omega arith)
          (omega (arith, h)),
    refl,
  );
}

init_controller-IsSetUp_example :
    (r : Mem) × ((init_controller follower (λ x. x) 0x1000 0x5000 0x6000 ≡ some r)
      × (IsSetUp 0x1000 0x5000 0x6000 r
          × ((nvme_mmio_read_32 r 0x1000 cc_offset 0 1 ≡ 1) × (is_ready 0x1000 r ≡ true))))
init_controller-IsSetUp_example =
    init_controller-IsSetUp follower (λ x. x) 0x1000 0x5000 0x6000 (omega arith) (omega arith)
      (omega arith) follower-IsController
