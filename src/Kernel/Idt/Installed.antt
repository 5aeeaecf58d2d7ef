-- ===== src/Kernel/Idt/Installed.antt =====
-- boot/kernel/idt.c, set_idt: the table as the processor reads it.
use osfort.Base.{
  ℕ, ◌+◌, ◌*◌, ◌-◌, ◌^◌, ◌<◌, ◌≤◌, ◌≡◌, ◌≢◌, ◌⊎◌, refl, ap, ◌∙◌, List, [], ◌∷◌, u64, arith,
}
use osfort.Memory.{Mem}
use osfort.Paging.{page_size, Pages, lock_page, req_page}
use osfort.Paging.Account.{marked}
use osfort.Paging.Request.{frames_of, IsFirstFree, req_page-found}
use osfort.Kernel.Idt.{
  Entry, Handlers, Idtr, installed, gate, gate_size, store_gate, write_gates, set_gates,
}
use osfort.Kernel.Idt.Gate.{
  Target, read_gate, read_gate_ext, read_gate-store_gate, store_gate_frame,
}

abbrev pub Every : (Entry → Type 0) → List Entry → Type 0
Every P [] = Unit
Every P (e ∷ es) = P e × Every P es

-- The entries are for different vectors of the 256.
abbrev pub IsTable : List Entry → Type 0
IsTable [] = Unit
IsTable (e ∷ es) =
    ((e.vector < 256) × (e.isr < 2 ^ 64) × (e.type < 16))
    × Every (λ f. (e.vector ≢ f.vector) × (f.vector < 256)) es
    × IsTable es

-- Address x is in no gate of the entries.
abbrev pub IsOutside : ℕ → ℕ → Entry → Type 0
IsOutside offs x e =
    (x < offs + e.vector * gate_size) ⊎ (offs + e.vector * gate_size + gate_size ≤ x)

abbrev pub target : Entry → Target
target e = record { address = e.isr; selector = 8; stack = 0; attributes = e.type + 128 }

-- What the processor reads for an entry.
abbrev pub IsInstalled : Mem → ℕ → Entry → Type 0
IsInstalled m offs e = read_gate m (offs + e.vector * gate_size) ≡ target e

module _ (offs : ℕ) (fits : offs + page_size ≤ 2 ^ 64) where
  write_gates_frame :
      (es : List Entry) (m : Mem) (x : ℕ)
      → Every (λ e. IsOutside offs x e × (e.vector < 256)) es
      → write_gates m offs es x ≡ m x
  unfolding write_gates
  write_gates_frame [] m x out = refl
  write_gates_frame (e ∷ es) m x ((out, small), rest) =
      let exact : u64 (offs + e.vector * gate_size) ≡ offs + e.vector * gate_size = omega arith in
      write_gates_frame es _ x rest
      ∙ rw exact (store_gate_frame m (offs + e.vector * gate_size) x _ out)

  Every-map :
      {P Q : Entry → Type 0} (es : List Entry) → ((e : Entry) → P e → Q e) → Every P es → Every Q es
  Every-map [] f all = all
  Every-map (e ∷ es) f (here, rest) = (f e here, Every-map es f rest)

  write_gates-IsInstalled :
      (es : List Entry) (m : Mem) → IsTable es → Every (IsInstalled (write_gates m offs es) offs) es
  unfolding write_gates
  write_gates-IsInstalled [] m table = table
  write_gates-IsInstalled (e ∷ es) m ((small, word, kind), apart, rest) =
      let at = offs + e.vector * gate_size in
      let exact : u64 at ≡ at = omega arith in
      let m' = store_gate m (u64 at) (gate e.isr e.type) in
      (
        read_gate_ext (write_gates m' offs es) m' at (λ x p q.
              write_gates_frame es m' x (Every-map es (λ f (ne, low). (ground arith, low)) apart))
            ∙ ap (λ (t : ℕ). read_gate (store_gate m t (gate e.isr e.type)) at) exact
            ∙ read_gate-store_gate m at e.isr e.type word kind,
        write_gates-IsInstalled es m' rest,
      )

IsOutside-small :
    (offs x : ℕ) (es : List Entry)
    → IsTable es
    → Every (IsOutside offs x) es
    → Every (λ e. IsOutside offs x e × (e.vector < 256)) es
IsOutside-small offs x [] table out = out
IsOutside-small offs x (e ∷ es) ((small, _, _), _, rest) (here, later) =
    ((here, small), IsOutside-small offs x es rest later)

-- The addresses of the handlers are words.
pub record IsWords (h : Handlers) : Type 0 where
  pub timer : h.timer < 2 ^ 64
  pub keyboard : h.keyboard < 2 ^ 64
  pub spurious_irq : h.spurious_irq < 2 ^ 64
  pub int_2b : h.int_2b < 2 ^ 64
  pub pf : h.pf < 2 ^ 64
  pub df : h.df < 2 ^ 64
  pub gp : h.gp < 2 ^ 64

installed-IsTable : (h : Handlers) → IsWords h → IsTable (installed h)
installed-IsTable h w = (
  (omega arith, w.timer, omega arith),
  ground arith,
  (
    (omega arith, w.keyboard, omega arith),
    ground arith,
    (
      (omega arith, w.spurious_irq, omega arith),
      ground arith,
      (
        (omega arith, w.int_2b, omega arith),
        ground arith,
        (
          (omega arith, w.pf, omega arith),
          ground arith,
          (
            (omega arith, w.df, omega arith),
            ground arith,
            ((omega arith, w.gp, omega arith), ground arith, ground arith),
          ),
        ),
      ),
    ),
  ),
)

-- The result for the table at offs, which is a page that was free.
pub record IsLoaded (s : Pages) (h : Handlers) (r : Pages × Idtr) : Type 0 where
  pub frame : ℕ
  pub free : IsFirstFree s 0 (frames_of s) frame
  pub place : r.1 ≡ record { size = page_size - 1; offs = frame * page_size }
  pub gates : Every (IsInstalled r.0.mem (frame * page_size)) (installed h)
  pub others :
      (x : ℕ)
      → Every (IsOutside (frame * page_size) x) (installed h)
      → r.0.mem x ≡ (lock_page s (frame * page_size)).mem x

IsLoaded-of :
    (s : Pages) (h : Handlers) (i : ℕ)
    → frames_of s * page_size ≤ 2 ^ 64
    → IsWords h
    → IsFirstFree s 0 (frames_of s) i
    → req_page s ≡ (lock_page s (i * page_size), i * page_size)
    → IsLoaded s h (set_gates s h)
unfolding set_gates
IsLoaded-of s h i whole w free e =
    let fits : i * page_size + page_size ≤ 2 ^ 64 = omega (arith, whole, free.below) in
    rw e (record {
      frame = i;
      free = free;
      place = refl;
      gates = write_gates-IsInstalled (i * page_size) fits (installed h) _ (installed-IsTable h w);
      others = λ x out.
          write_gates_frame (i * page_size) fits (installed h) _ x
            (IsOutside-small (i * page_size) x (installed h) (installed-IsTable h w) out);
    })

-- Where a frame is free, all frames lie below 2 ^ 64 and the handlers' addresses are words: set_idt
-- takes the first free frame for the table, of 256 entries; the processor reads from each of the seven
-- vectors its handler's address, the selector of the kernel's code and a present gate; and every
-- other byte is as it was, so the other 249 entries are what the frame happened to hold.
pub set_gates-IsLoaded :
    (s : Pages) (h : Handlers)
    → frames_of s * page_size ≤ 2 ^ 64
    → marked s < frames_of s
    → IsWords h
    → IsLoaded s h (set_gates s h)
set_gates-IsLoaded s h whole room w =
    let (i, free, e) = req_page-found s whole room in IsLoaded-of s h i whole w free e
