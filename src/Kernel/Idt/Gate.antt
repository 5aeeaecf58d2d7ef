-- ===== src/Kernel/Idt/Gate.antt =====
-- boot/kernel/idt.h, GATE_DESCRIPTOR, as the processor reads it.
use osfort.Base.{ℕ, ◌+◌, ◌*◌, ◌%◌, ◌^◌, ◌<◌, ◌≤◌, ◌≡◌, ◌⊎◌, ◌∙◌, ◌>>>◌, arith}
use osfort.Base.Bits.{bit_and-mask}
use osfort.Memory.{Mem, load_bytes}
use osfort.Memory.Laws.{
  store_bytes_frame, load_bytes_ext, load_bytes-store_bytes_self, load_bytes-store_bytes_ne,
}
use osfort.Kernel.Idt.{GateDescriptor, gate, gate_size, store_gate}

-- The address, the selector, and the byte with the type, the privilege level and the present bit.
pub record Target : Type 0 where
  pub address : ℕ
  pub selector : ℕ
  pub stack : ℕ
  pub attributes : ℕ

unfoldable pub read_gate : Mem → ℕ → Target
read_gate m a = record {
  address = load_bytes 2 m a + load_bytes 2 m (a + 6) * 2 ^ 16 + load_bytes 4 m (a + 8) * 2 ^ 32;
  selector = load_bytes 2 m (a + 2);
  stack = load_bytes 1 m (a + 4);
  attributes = load_bytes 1 m (a + 5);
}

-- A gate is written inside its 16 bytes.
pub store_gate_frame :
    (m : Mem) (a x : ℕ) (g : GateDescriptor)
    → (x < a) ⊎ (a + gate_size ≤ x)
    → store_gate m a g x ≡ m x
unfolding store_gate
store_gate_frame m a x g out =
    store_bytes_frame 4 _ (a + 12) _ x (omega arith)
    ∙ store_bytes_frame 4 _ (a + 8) _ x (omega arith)
    ∙ store_bytes_frame 2 _ (a + 6) _ x (omega arith)
    ∙ store_bytes_frame 1 _ (a + 5) _ x (omega arith)
    ∙ store_bytes_frame 1 _ (a + 4) _ x (omega arith)
    ∙ store_bytes_frame 2 _ (a + 2) _ x (omega arith)
    ∙ store_bytes_frame 2 m a _ x (omega arith)

pub read_gate_ext :
    (m m' : Mem) (a : ℕ)
    → ((x : ℕ) → a ≤ x → x < a + gate_size → m x ≡ m' x)
    → read_gate m a ≡ read_gate m' a
unfolding read_gate
read_gate_ext m m' a same = cc (
  load_bytes_ext 2 m m' a (λ x p q. same x (omega arith) (omega arith)),
  load_bytes_ext 2 m m' (a + 2) (λ x p q. same x (omega arith) (omega arith)),
  load_bytes_ext 1 m m' (a + 4) (λ x p q. same x (omega arith) (omega arith)),
  load_bytes_ext 1 m m' (a + 5) (λ x p q. same x (omega arith) (omega arith)),
  load_bytes_ext 2 m m' (a + 6) (λ x p q. same x (omega arith) (omega arith)),
  load_bytes_ext 4 m m' (a + 8) (λ x p q. same x (omega arith) (omega arith)),
)

-- Each field that the processor reads.
module _ (m : Mem) (a : ℕ) (g : GateDescriptor) where
  offs0_back : load_bytes 2 (store_gate m a g) a ≡ g.offs0 % 256 ^ 2
  unfolding store_gate
  offs0_back =
      load_bytes-store_bytes_ne 2 4 _ (a + 12) a _ (omega arith)
      ∙ load_bytes-store_bytes_ne 2 4 _ (a + 8) a _ (omega arith)
      ∙ load_bytes-store_bytes_ne 2 2 _ (a + 6) a _ (omega arith)
      ∙ load_bytes-store_bytes_ne 2 1 _ (a + 5) a _ (omega arith)
      ∙ load_bytes-store_bytes_ne 2 1 _ (a + 4) a _ (omega arith)
      ∙ load_bytes-store_bytes_ne 2 2 _ (a + 2) a _ (omega arith)
      ∙ load_bytes-store_bytes_self 2 _ a _

  seg_back : load_bytes 2 (store_gate m a g) (a + 2) ≡ g.seg % 256 ^ 2
  unfolding store_gate
  seg_back =
      load_bytes-store_bytes_ne 2 4 _ (a + 12) (a + 2) _ (omega arith)
      ∙ load_bytes-store_bytes_ne 2 4 _ (a + 8) (a + 2) _ (omega arith)
      ∙ load_bytes-store_bytes_ne 2 2 _ (a + 6) (a + 2) _ (omega arith)
      ∙ load_bytes-store_bytes_ne 2 1 _ (a + 5) (a + 2) _ (omega arith)
      ∙ load_bytes-store_bytes_ne 2 1 _ (a + 4) (a + 2) _ (omega arith)
      ∙ load_bytes-store_bytes_self 2 _ (a + 2) _

  ist_byte_back : load_bytes 1 (store_gate m a g) (a + 4) ≡ (g.ist % 8 + g.zero0 % 32 * 8) % 256 ^ 1
  unfolding store_gate
  ist_byte_back =
      load_bytes-store_bytes_ne 1 4 _ (a + 12) (a + 4) _ (omega arith)
      ∙ load_bytes-store_bytes_ne 1 4 _ (a + 8) (a + 4) _ (omega arith)
      ∙ load_bytes-store_bytes_ne 1 2 _ (a + 6) (a + 4) _ (omega arith)
      ∙ load_bytes-store_bytes_ne 1 1 _ (a + 5) (a + 4) _ (omega arith)
      ∙ load_bytes-store_bytes_self 1 _ (a + 4) _

  type_byte_back :
      load_bytes 1 (store_gate m a g) (a + 5)
      ≡ (g.type % 16 + g.zero1 % 2 * 16 + g.dpl % 4 * 32 + g.p % 2 * 128) % 256 ^ 1
  unfolding store_gate
  type_byte_back =
      load_bytes-store_bytes_ne 1 4 _ (a + 12) (a + 5) _ (omega arith)
      ∙ load_bytes-store_bytes_ne 1 4 _ (a + 8) (a + 5) _ (omega arith)
      ∙ load_bytes-store_bytes_ne 1 2 _ (a + 6) (a + 5) _ (omega arith)
      ∙ load_bytes-store_bytes_self 1 _ (a + 5) _

  offs1_back : load_bytes 2 (store_gate m a g) (a + 6) ≡ g.offs1 % 256 ^ 2
  unfolding store_gate
  offs1_back =
      load_bytes-store_bytes_ne 2 4 _ (a + 12) (a + 6) _ (omega arith)
      ∙ load_bytes-store_bytes_ne 2 4 _ (a + 8) (a + 6) _ (omega arith)
      ∙ load_bytes-store_bytes_self 2 _ (a + 6) _

  offs2_back : load_bytes 4 (store_gate m a g) (a + 8) ≡ g.offs2 % 256 ^ 4
  unfolding store_gate
  offs2_back =
      load_bytes-store_bytes_ne 4 4 _ (a + 12) (a + 8) _ (omega arith)
      ∙ load_bytes-store_bytes_self 4 _ (a + 8) _

-- A gate reads back as the handler it was made for.
pub read_gate-store_gate :
    (m : Mem) (a isr type : ℕ)
    → isr < 2 ^ 64
    → type < 16
    → read_gate (store_gate m a (gate isr type)) a
      ≡ record { address = isr; selector = 8; stack = 0; attributes = type + 128 }
unfolding read_gate gate
read_gate-store_gate m a isr type h k =
    let g = gate isr type in
    let address : load_bytes 2 (store_gate m a g) a
          + load_bytes 2 (store_gate m a g) (a + 6) * 2 ^ 16
          + load_bytes 4 (store_gate m a g) (a + 8) * 2 ^ 32
        ≡ isr =
      omega (
        arith,
        h,
        offs0_back m a g,
        offs1_back m a g,
        offs2_back m a g,
        bit_and-mask 16 isr,
        bit_and-mask 16 (isr >>> 16),
        bit_and-mask 32 (isr >>> 32),
      ) in
    let attributes : load_bytes 1 (store_gate m a g) (a + 5) ≡ type + 128 =
      omega (arith, k, type_byte_back m a g) in
    cc (address, attributes, seg_back m a g, ist_byte_back m a g)
