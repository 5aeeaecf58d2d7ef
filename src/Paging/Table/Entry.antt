-- ===== src/Paging/Table/Entry.antt =====
-- Page table entries as words, and the entries of a page after the writes that the code makes.
use osfort.Base.{ℕ, ◌+◌, ◌*◌, ◌%◌, ◌^◌, ◌≤◌, ◌<◌, ◌≡◌, ◌≢◌, ◌⊎◌, ap, ◌∙◌, arith}
use osfort.Memory.{Mem, load64}
use osfort.Memory.Laws.{
  load_bytes_ext, load_bytes-low, load_bytes-store_bytes_self, load_bytes-store_bytes_ne,
  store_bytes_frame,
}
use osfort.Sys.Str.{memset}
use osfort.Sys.Str.Laws.{memset_lem}
use osfort.Paging.{page_size}
use osfort.Paging.Table.{PageTableEntry, encode, decode, read_entry, write_entry}

-- Every field fits its width.
pub record IsEntry (e : PageTableEntry) : Type 0 where
  pub p : e.p < 2
  pub rw : e.rw < 2
  pub us : e.us < 2
  pub pwt : e.pwt < 2
  pub pcd : e.pcd < 2
  pub a : e.a < 2
  pub avl0 : e.avl0 < 2
  pub ps : e.ps < 2
  pub avl1 : e.avl1 < 2 ^ 4
  pub addr : e.addr < 2 ^ 40
  pub avl2 : e.avl2 < 2 ^ 11
  pub xd : e.xd < 2

pub decode-IsEntry : (w : ℕ) → IsEntry (decode w)
unfolding decode
decode-IsEntry w = omega arith

pub encode-lt : (e : PageTableEntry) → IsEntry e → encode e < 2 ^ 64
unfolding encode
encode-lt e v = omega arith

-- An entry whose fields fit their widths is read back from the word that it is stored as.
decode-encode : (e : PageTableEntry) → IsEntry e → decode (encode e) ≡ e
unfolding encode decode
decode-encode e v = ground arith

-- Every 64-bit word is the word of the entry read from it.
pub encode-decode : (w : ℕ) → w < 2 ^ 64 → encode (decode w) ≡ w
unfolding encode decode
encode-decode w h = omega arith

read_entry_ext :
    (m m' : Mem) (t i : ℕ)
    → ((x : ℕ) → t + 8 * i ≤ x → x < t + 8 * i + 8 → m x ≡ m' x)
    → read_entry m t i ≡ read_entry m' t i
unfolding read_entry
read_entry_ext m m' t i h = ap decode (load_bytes_ext 8 m m' (t + 8 * i) h)

pub read_entry-IsEntry : (m : Mem) (t i : ℕ) → IsEntry (read_entry m t i)
unfolding read_entry
read_entry-IsEntry m t i = decode-IsEntry (load64 m (t + 8 * i))

-- The entries of frame f are its own bytes.
pub read_entry_page :
    (m m' : Mem) (f i : ℕ)
    → i < 512
    → ((x : ℕ) → f * page_size ≤ x → x < f * page_size + page_size → m x ≡ m' x)
    → read_entry m (f * page_size) i ≡ read_entry m' (f * page_size) i
read_entry_page m m' f i h same =
    read_entry_ext m m' (f * page_size) i (λ x p q. same x (omega arith) (omega arith))

pub write_entry_frame :
    (m : Mem) (f i x : ℕ) (e : PageTableEntry)
    → i < 512
    → (x < f * page_size) ⊎ (f * page_size + page_size ≤ x)
    → write_entry m (f * page_size) i e x ≡ m x
unfolding write_entry
write_entry_frame m f i x e h out =
    store_bytes_frame 8 m (f * page_size + 8 * i) (encode e) x (omega arith)

pub read_entry-write_entry_self :
    (m : Mem) (t i : ℕ) (e : PageTableEntry) → IsEntry e → read_entry (write_entry m t i e) t i ≡ e
unfolding read_entry write_entry
read_entry-write_entry_self m t i e v =
    let fits : encode e % 2 ^ 64 ≡ encode e = omega (arith, encode-lt e v) in
    ap decode (load_bytes-store_bytes_self 8 m (t + 8 * i) (encode e) ∙ fits) ∙ decode-encode e v

pub read_entry-write_entry_ne :
    (m : Mem) (f g i j : ℕ) (e : PageTableEntry)
    → i < 512
    → j < 512
    → (f ≢ g) ⊎ (i ≢ j)
    → read_entry (write_entry m (f * page_size) i e) (g * page_size) j
      ≡ read_entry m (g * page_size) j
unfolding read_entry write_entry
read_entry-write_entry_ne m f g i j e hi hj ne = ap decode (
    load_bytes-store_bytes_ne 8 8 m (f * page_size + 8 * i) (g * page_size + 8 * j) (encode e)
      (grind arith))

-- A cleared page has no present entry.
pub read_entry-memset :
    (m : Mem) (g j : ℕ)
    → j < 512
    → (read_entry (memset m (g * page_size) 0 page_size) (g * page_size) j).p ≡ 0
unfolding read_entry decode
read_entry-memset m g j h = ground (
  arith,
  load_bytes-low 7 (memset m (g * page_size) 0 page_size) (g * page_size + 8 * j),
  memset_lem m (g * page_size) 0 page_size (g * page_size + 8 * j),
)
