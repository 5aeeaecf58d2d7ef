-- ===== src/Kernel/Idt.antt =====
-- boot/kernel/idt.c and idt.h, dev/pic/pic.h: the interrupt table, the old interrupt controllers and the handlers.
pub mod Gate
pub mod Installed
use osfort.Base.{ℕ, ◌+◌, ◌*◌, ◌/◌, ◌%◌, ◌-◌, List, [], ◌∷◌, bit_and, bit_or, u16, u32, u64, ◌>>>◌}
use osfort.Memory.{Mem, store_bytes}
use osfort.Machine.{Out, outb, io_wait}
use osfort.Paging.{Pages, req_page}
use osfort.Print.Screen.{Graphics, kputs}
use osfort.Print.Screen.Clear.{clear_screen}

-- GATE_DESCRIPTOR.
pub record GateDescriptor : Type 0 where
  pub offs0 : ℕ
  pub seg : ℕ
  pub ist : ℕ
  pub zero0 : ℕ
  pub type : ℕ
  pub zero1 : ℕ
  pub dpl : ℕ
  pub p : ℕ
  pub offs1 : ℕ
  pub offs2 : ℕ
  pub zero2 : ℕ

-- The assignments for one handler. `zero2` keeps the 0 of a global.
unfoldable pub gate : ℕ → ℕ → GateDescriptor
gate isr type = record {
  offs0 = u16 (bit_and isr 0xffff);
  seg = 0x0008;
  ist = 0;
  zero0 = 0;
  type = type;
  zero1 = 0;
  dpl = 0;
  p = 1;
  offs1 = u16 (bit_and (isr >>> 16) 0xffff);
  offs2 = u32 (bit_and (isr >>> 32) 0xffffffff);
  zero2 = 0;
}

abbrev pub gate_size : ℕ
gate_size = 16

-- The packed layout: a bit field takes the low bits of what it is given.
unfoldable pub store_gate : Mem → ℕ → GateDescriptor → Mem
store_gate m a g =
    let m1 = store_bytes 2 m a g.offs0 in
    let m2 = store_bytes 2 m1 (a + 2) g.seg in
    let m3 = store_bytes 1 m2 (a + 4) (g.ist % 8 + g.zero0 % 32 * 8) in
    let m4 =
      store_bytes 1 m3 (a + 5) (g.type % 16 + g.zero1 % 2 * 16 + g.dpl % 4 * 32 + g.p % 2 * 128) in
    let m5 = store_bytes 2 m4 (a + 6) g.offs1 in
    let m6 = store_bytes 4 m5 (a + 8) g.offs2 in store_bytes 4 m6 (a + 12) g.zero2

-- The addresses of the handlers.
pub record Handlers : Type 0 where
  pub timer : ℕ
  pub keyboard : ℕ
  pub spurious_irq : ℕ
  pub int_2b : ℕ
  pub pf : ℕ
  pub df : ℕ
  pub gp : ℕ

-- An entry that is written: its vector, the handler and the type of gate.
pub record Entry : Type 0 where
  pub vector : ℕ
  pub isr : ℕ
  pub type : ℕ

abbrev pub interrupt_gate : ℕ
interrupt_gate = 0b1110

abbrev pub trap_gate : ℕ
trap_gate = 0b1111

-- The entries in the order in which they are written.
abbrev pub installed : Handlers → List Entry
installed h =
    record { vector = 0x20; isr = h.timer; type = interrupt_gate }
    ∷ record { vector = 0x21; isr = h.keyboard; type = interrupt_gate }
    ∷ record { vector = 0x27; isr = h.spurious_irq; type = interrupt_gate }
    ∷ record { vector = 0x2b; isr = h.int_2b; type = interrupt_gate }
    ∷ record { vector = 0x0e; isr = h.pf; type = trap_gate }
    ∷ record { vector = 0x08; isr = h.df; type = trap_gate }
    ∷ record { vector = 0x0d; isr = h.gp; type = trap_gate }
    ∷ []

unfoldable pub write_gates : Mem → ℕ → List Entry → Mem
write_gates m offs [] = m
write_gates m offs (e ∷ es) =
    write_gates (store_gate m (u64 (offs + e.vector * gate_size)) (gate e.isr e.type)) offs es

-- IDTR.
pub record Idtr : Type 0 where
  pub size : ℕ
  pub offs : ℕ

-- sizeof(IDT): eight gates, filled up to its alignment of 0x1000.
abbrev pub sizeof_idt : ℕ
sizeof_idt = 0x1000

-- What `lidt` gets, and the allocator with the memory.
unfoldable pub set_gates : Pages → Handlers → Pages × Idtr
set_gates s h =
    let (s', offs) = req_page s in
    (
      record s' { mem = write_gates s'.mem offs (installed h) },
      record { size = sizeof_idt - 1; offs = offs },
    )

abbrev pub pic1_com : ℕ
pic1_com = 0x20

abbrev pub pic1_data : ℕ
pic1_data = 0x21

abbrev pub pic2_com : ℕ
pic2_com = 0xa0

abbrev pub pic2_data : ℕ
pic2_data = 0xa1

-- The bytes written to the two controllers, each with a wait after it.
abbrev pub pic_bytes : List Out
pic_bytes =
    record { value = bit_or 0x10 0x01; port = pic1_com }
    ∷ record { value = bit_or 0x10 0x01; port = pic2_com }
    ∷ record { value = 0x20; port = pic1_data }
    ∷ record { value = 0x28; port = pic2_data }
    ∷ record { value = 0x04; port = pic1_data }
    ∷ record { value = 0x02; port = pic2_data }
    ∷ record { value = 0x01; port = pic1_data }
    ∷ record { value = 0x01; port = pic2_data }
    ∷ record { value = 0x00; port = pic1_data }
    ∷ record { value = 0x00; port = pic2_data }
    ∷ []

unfoldable pub send : List Out → List Out → List Out
send [] outs = outs
send (b ∷ bs) outs = send bs (io_wait (outb b.value b.port outs))

-- set_idt between `cli` and `sti`, after the table.
unfoldable pub set_pics : List Out → List Out
set_pics outs = send pic_bytes outs

-- timer, keyboard, spurious_irq and int_2b.
unfoldable pub acknowledge : List Out → List Out
acknowledge outs = outb 0x20 0x20 outs

-- pf, df and gp, where an interrupt that cannot be masked ends the `hlt`: after this they loop.
unfoldable pub fault : List ℕ → Graphics → List Out → Graphics × List Out
fault name g outs = (kputs (clear_screen g 0xff444444) name, outb 0x20 0x20 outs)
