-- ===== src/Pci/Join.antt =====
-- dev/pci/pcie.c 5 to 26: the joining of split data.
use native.Mathlib.Nat.{div-div-eq-div-mul}
use osfort.Base.{
  ℕ, zero, suc, ◌+◌, ◌*◌, ◌/◌, ◌%◌, ◌^◌, ◌≤◌, ◌<◌, ◌≡◌, ◌⊎◌, inl, inr, refl, sym, ap, ◌∙◌, List, [],
  ◌∷◌, ◌++◌, u8, bit_and, ◌>>>◌, ◌==◌, if◌then◌else◌, arith,
}
use osfort.Base.Field.{pow-add}
use osfort.Base.Bits.{bit_and-mask}
use osfort.Memory.{Mem, store8, load_bytes, store_bytes}
use osfort.Memory.Laws.{load_bytes_ext, load_bytes-store_bytes_self}
use osfort.Pci.{Part, bytes_from, parts_from, pcie_concat_split_data}

-- The bytes that the parts take.
abbrev pub total : List Part → ℕ
total [] = 0
total (p ∷ ps) = p.size + total ps

store8-same : (m : Mem) (a v w : ℕ) → u8 v ≡ u8 w → store8 m a v ≡ store8 m a w
unfolding store8
store8-same m a v w e = ap (λ b x. if a == x then b else m x) e

shift-next : (arg j : ℕ) → arg >>> ((j + 1) * 8) ≡ (arg >>> (j * 8)) / 256
shift-next arg j =
    ap (λ (t : ℕ). arg / t) (ap (λ (t : ℕ). 2 ^ t) (omega arith) ∙ pow-add 2 (j * 8) 8)
    ∙ sym (div-div-eq-div-mul arg (2 ^ (j * 8)) 256)

-- The bytes of an argument, one after the other, are those of a write of it.
bytes_from-store_bytes :
    (n j arg ret_i : ℕ) (ret : Mem)
    → j + n ≤ 8
    → bytes_from n j arg ret_i ret ≡ store_bytes n ret ret_i (arg >>> (j * 8))
unfolding bytes_from store_bytes
bytes_from-store_bytes zero j arg ret_i ret h = refl
bytes_from-store_bytes (suc n) j arg ret_i ret h =
    let count : j * 8 % 64 ≡ j * 8 = omega arith in
    let byte : store8 ret ret_i (bit_and (arg >>> (j * 8)) 0xff)
        ≡ store8 ret ret_i (arg >>> (j * 8)) =
      store8-same ret ret_i _ _ (omega (arith, bit_and-mask 8 (arg >>> (j * 8)))) in
    rw (count, byte)
      (bytes_from-store_bytes n (j + 1) arg (ret_i + 1) _ (omega arith)
        ∙ ap (store_bytes n _ (ret_i + 1)) (shift-next arg j))

start-whole : (arg : ℕ) → arg >>> (0 * 8) ≡ arg
start-whole arg = omega arith

bytes_from-frame :
    (n j arg ret_i : ℕ) (ret : Mem) (x : ℕ)
    → (x < ret_i) ⊎ (ret_i + n ≤ x)
    → bytes_from n j arg ret_i ret x ≡ ret x
unfolding bytes_from store8
bytes_from-frame zero j arg ret_i ret x out = refl
bytes_from-frame (suc n) j arg ret_i ret x out =
    bytes_from-frame n (j + 1) arg (ret_i + 1) _ x (omega arith) ∙ ground arith

parts_from-frame :
    (ps : List Part) (ret_i : ℕ) (ret : Mem) (x : ℕ)
    → (x < ret_i) ⊎ (ret_i + total ps ≤ x)
    → parts_from ps ret_i ret x ≡ ret x
unfolding parts_from
parts_from-frame [] ret_i ret x out = refl
parts_from-frame (p ∷ ps) ret_i ret x out =
    parts_from-frame ps (ret_i + p.size) _ x (omega arith)
    ∙ bytes_from-frame p.size 0 p.arg ret_i ret x (omega arith)

parts_from-load_bytes :
    (ps : List Part) (p : Part) (qs : List Part) (ret_i at : ℕ) (ret : Mem)
    → p.size ≤ 8
    → at ≡ ret_i + total ps
    → load_bytes p.size (parts_from (ps ++ (p ∷ qs)) ret_i ret) at ≡ p.arg % 256 ^ p.size
unfolding parts_from
parts_from-load_bytes [] p qs ret_i at ret h e =
    let here : at ≡ ret_i = omega (arith, e) in
    let copied = bytes_from p.size 0 p.arg ret_i ret in
    rw here (
      load_bytes_ext p.size (parts_from qs (ret_i + p.size) copied) copied ret_i
        (λ x a b. parts_from-frame qs (ret_i + p.size) copied x (inl b))
      ∙ ap (λ r. load_bytes p.size r ret_i)
          (bytes_from-store_bytes p.size 0 p.arg ret_i ret (omega arith))
      ∙ load_bytes-store_bytes_self p.size ret ret_i (p.arg >>> (0 * 8))
      ∙ ap (λ (t : ℕ). t % 256 ^ p.size) (start-whole p.arg))
parts_from-load_bytes (o ∷ ps) p qs ret_i at ret h e =
    parts_from-load_bytes ps p qs (ret_i + o.size) at _ h (omega (arith, e))

-- pcie_concat_split_data of parts that take at most 64 bytes together: a part of at most 8 bytes, at
-- any place among them, is read back from behind the parts before it, modulo its width, and nothing
-- behind the array is written.
pub pcie_concat_split_data-load_bytes :
    (ps : List Part) (p : Part) (qs : List Part) (before : Mem)
    → p.size ≤ 8
    → total (ps ++ (p ∷ qs)) ≤ 64
    → (load_bytes p.size (pcie_concat_split_data (ps ++ (p ∷ qs)) before) (total ps)
        ≡ p.arg % 256 ^ p.size)
      × ((x : ℕ) → 64 ≤ x → pcie_concat_split_data (ps ++ (p ∷ qs)) before x ≡ before x)
unfolding pcie_concat_split_data
pcie_concat_split_data-load_bytes ps p qs before narrow fits = (
  parts_from-load_bytes ps p qs 0 (total ps) before narrow (omega arith),
  λ x h. parts_from-frame (ps ++ (p ∷ qs)) 0 before x (inr (omega (arith, fits))),
)
