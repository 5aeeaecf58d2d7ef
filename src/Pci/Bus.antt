-- ===== src/Pci/Bus.antt =====
-- dev/pci/pcie.c 36 to 42: the functions of one bus, which fill the 256 values of the index once.
use osfort.Base.{ℕ, zero, suc, ◌+◌, ◌*◌, ◌≤◌, ◌<◌, ◌≡◌, ◌⊎◌, inl, inr, refl, ◌∙◌, u8, arith}
use osfort.Base.Arith.{eq-or-later}
use osfort.Pci.{State, push, functions_from, devices_from, function_addr}

-- From function l of device k on, the slots up to the end of the device are written.
pub functions_from-index :
    (n l base j k : ℕ) (s : State)
    → s.index ≡ u8 (8 * k + l)
    → (functions_from n l base j k s).index ≡ u8 (8 * k + (l + n))
unfolding functions_from push
functions_from-index zero l base j k s e = omega (arith, e)
functions_from-index (suc n) l base j k s e =
    functions_from-index n (l + 1) base j k (push (function_addr base j k l) s) (omega (arith, e))
    ∙ omega arith

push_self : (addr : ℕ) (s : State) (x : ℕ) → s.index ≡ x → (push addr s).slots x ≡ addr
unfolding push
push_self addr s x e = ground arith

push_ne :
    (addr : ℕ) (s : State) (x : ℕ)
    → (s.index < x) ⊎ (x < s.index)
    → (push addr s).slots x ≡ s.slots x
unfolding push
push_ne addr s x e = ground arith

push-index : (addr : ℕ) (s : State) → (push addr s).index ≡ u8 (s.index + 1)
unfolding push
push-index addr s = refl

functions_from-frame :
    (n l base j k : ℕ) (s : State) (x : ℕ)
    → s.index ≡ u8 (8 * k + l)
    → l + n ≤ 8
    → k < 32
    → (x < 8 * k + l) ⊎ (8 * k + (l + n) ≤ x)
    → (functions_from n l base j k s).slots x ≡ s.slots x
unfolding functions_from
functions_from-frame zero l base j k s x e fits small out = refl
functions_from-frame (suc n) l base j k s x e fits small out =
    let addr = function_addr base j k l in
    functions_from-frame n (l + 1) base j k (push addr s) x (omega (arith, e, push-index addr s))
      (omega arith) small (omega arith)
    ∙ push_ne addr s x (omega (arith, e))

functions_from-slot :
    (n l base j k : ℕ) (s : State) (y : ℕ)
    → s.index ≡ u8 (8 * k + l)
    → l + n ≤ 8
    → k < 32
    → l ≤ y
    → y < l + n
    → (functions_from n l base j k s).slots (8 * k + y) ≡ function_addr base j k y
unfolding functions_from
functions_from-slot zero l base j k s y e fits small p q = absurd (omega arith)
functions_from-slot (suc n) l base j k s y e fits small p q =
    let addr = function_addr base j k l in
    let e' : (push addr s).index ≡ u8 (8 * k + (l + 1)) = omega (arith, e, push-index addr s) in
    elim (eq-or-later l y p) [
      | inl here ↦ rw (← here) (
          functions_from-frame n (l + 1) base j k (push addr s) (8 * k + l) e' (omega arith) small
            (inl (omega arith))
          ∙ push_self addr s (8 * k + l) (omega (arith, e)))
      | inr p' ↦
          functions_from-slot n (l + 1) base j k (push addr s) y e' (omega arith) small p'
            (omega arith)
    ]

pub devices_from-index :
    (n k base j : ℕ) (s : State)
    → s.index ≡ u8 (8 * k)
    → (devices_from n k base j s).index ≡ u8 (8 * (k + n))
unfolding devices_from
devices_from-index zero k base j s e = omega (arith, e)
devices_from-index (suc n) k base j s e =
    devices_from-index n (k + 1) base j (functions_from 8 0 base j k s)
      (functions_from-index 8 0 base j k s (omega (arith, e)) ∙ omega arith)
    ∙ omega arith

pub devices_from-frame :
    (n k base j : ℕ) (s : State) (x : ℕ)
    → s.index ≡ u8 (8 * k)
    → k + n ≤ 32
    → (x < 8 * k) ⊎ (8 * (k + n) ≤ x)
    → (devices_from n k base j s).slots x ≡ s.slots x
unfolding devices_from
devices_from-frame zero k base j s x e fits out = refl
devices_from-frame (suc n) k base j s x e fits out =
    devices_from-frame n (k + 1) base j (functions_from 8 0 base j k s) x
      (functions_from-index 8 0 base j k s (omega (arith, e)) ∙ omega arith) (omega arith)
      (omega arith)
    ∙ functions_from-frame 8 0 base j k s x (omega (arith, e)) (omega arith) (omega arith)
        (omega arith)

pub devices_from-slot :
    (n k base j : ℕ) (s : State) (x y : ℕ)
    → s.index ≡ u8 (8 * k)
    → k + n ≤ 32
    → k ≤ x
    → x < k + n
    → y < 8
    → (devices_from n k base j s).slots (8 * x + y) ≡ function_addr base j x y
unfolding devices_from
devices_from-slot zero k base j s x y e fits p q r = absurd (omega arith)
devices_from-slot (suc n) k base j s x y e fits p q r =
    let s' = functions_from 8 0 base j k s in
    let e' : s'.index ≡ u8 (8 * (k + 1)) =
      functions_from-index 8 0 base j k s (omega (arith, e)) ∙ omega arith in
    elim (eq-or-later k x p) [
      | inl here ↦ rw (← here) (
          devices_from-frame n (k + 1) base j s' (8 * k + y) e' (omega arith) (inl (omega arith))
          ∙ functions_from-slot 8 0 base j k s y (omega (arith, e)) (omega arith) (omega arith)
              (omega arith) (omega arith))
      | inr p' ↦ devices_from-slot n (k + 1) base j s' x y e' (omega arith) p' (omega arith) r
    ]
