-- ===== src/Pci/Spaces.antt =====
-- dev/pci/pcie.c 27 to 46: what the list of configuration spaces holds in the end.
use osfort.Base.{
  ℕ, zero, suc, ◌+◌, ◌-◌, ◌*◌, ◌≤◌, ◌<◌, ◌≡◌, ◌⊎◌, inl, inr, refl, ◌∙◌, Option, none, some,
  Bool-cases, ltb, ltb→lt, if◌then◌else◌, arith,
}
use osfort.Memory.{Mem}
use osfort.Pci.{
  Slots, State, function_addr, config_space, base_addr, pci_num_start, pci_num_end,
  config_space_entries, devices_from, buses_from, entries_from, clear_from,
  pcie_get_config_space_addrs,
}
use osfort.Pci.Bus.{devices_from-index, devices_from-frame, devices_from-slot}

-- A bus, and the address of the segment it belongs to.
pub record Bus : Type 0 where
  pub base : ℕ
  pub num : ℕ

-- The last bus that entries i and on give, with n entries left: an entry gives its buses from the
-- first up to, but without, the last.
abbrev pub last_bus : ℕ → ℕ → Mem → ℕ → Option Bus → Option Bus
last_bus zero i m mcfg bus = bus
last_bus (suc n) i m mcfg bus =
    let entry = config_space mcfg i in
    last_bus n (i + 1) m mcfg (
      if ltb (pci_num_start m entry) (pci_num_end m entry)
      then some (record { base = base_addr m entry; num = pci_num_end m entry - 1 })
      else bus)

-- The first 256 slots are the functions of one bus, or 0 where there is none, and the others are 0.
abbrev pub IsListed : Option Bus → Slots → Type 0
IsListed none slots = (x : ℕ) → x < 0xfff → slots x ≡ 0
IsListed (some bus) slots =
    ((k l : ℕ) → k < 32 → l < 8 → slots (8 * k + l) ≡ function_addr bus.base bus.num k l)
    × ((x : ℕ) → 256 ≤ x → x < 0xfff → slots x ≡ 0)

high-zero :
    (bus : Option Bus) (slots : Slots)
    → IsListed bus slots
    → (x : ℕ) → 256 ≤ x
    → x < 0xfff
    → slots x ≡ 0
high-zero none slots h x p q = h x q
high-zero (some bus) slots h x p q = h.1 x p q

devices-index : (j base : ℕ) (s : State) → s.index ≡ 0 → (devices_from 32 0 base j s).index ≡ 0
devices-index j base s e = devices_from-index 32 0 base j s (omega (arith, e))

buses_from-index : (n j base : ℕ) (s : State) → s.index ≡ 0 → (buses_from n j base s).index ≡ 0
unfolding buses_from
buses_from-index zero j base s e = e
buses_from-index (suc n) j base s e =
    buses_from-index n (j + 1) base (devices_from 32 0 base j s) (devices-index j base s e)

buses_from-frame :
    (n j base : ℕ) (s : State) (x : ℕ)
    → s.index ≡ 0
    → 256 ≤ x
    → (buses_from n j base s).slots x ≡ s.slots x
unfolding buses_from
buses_from-frame zero j base s x e p = refl
buses_from-frame (suc n) j base s x e p =
    buses_from-frame n (j + 1) base (devices_from 32 0 base j s) x (devices-index j base s e) p
    ∙ devices_from-frame 32 0 base j s x (omega (arith, e)) (omega arith) (inr (omega arith))

-- Each bus overwrites the one before.
buses_from-slot :
    (n j last base : ℕ) (s : State) (k l : ℕ)
    → s.index ≡ 0
    → last ≡ j + n
    → k < 32
    → l < 8
    → (buses_from (suc n) j base s).slots (8 * k + l) ≡ function_addr base last k l
unfolding buses_from
buses_from-slot zero j last base s k l e exact p q =
    let here : last ≡ j = omega (arith, exact) in
    rw here (
      devices_from-slot 32 0 base j s k l (omega (arith, e)) (omega arith) (omega arith)
        (omega arith) q)
buses_from-slot (suc n) j last base s k l e exact p q =
    buses_from-slot n (j + 1) last base (devices_from 32 0 base j s) k l (devices-index j base s e)
      (omega (arith, exact)) p q

buses_from-IsListed :
    (bus : Option Bus) (n j base last : ℕ) (s : State)
    → s.index ≡ 0
    → IsListed bus s.slots
    → last ≡ j + n
    → IsListed (some (record { base = base; num = last })) (buses_from (suc n) j base s).slots
buses_from-IsListed bus n j base last s e h exact = (
  λ k l p q. buses_from-slot n j last base s k l e exact p q,
  λ x p q. buses_from-frame (suc n) j base s x e p ∙ high-zero bus s.slots h x p q,
)

buses_from-zero :
    (bus : Option Bus) (start end base : ℕ) (s : State)
    → end ≤ start
    → IsListed bus s.slots
    → IsListed bus (buses_from (end - start) start base s).slots
unfolding buses_from
buses_from-zero bus start end base s h listed =
    let none_left : end - start ≡ 0 = omega arith in rw none_left listed

entry-IsListed :
    (bus : Option Bus) (start end base : ℕ) (s : State)
    → s.index ≡ 0
    → IsListed bus s.slots
    → IsListed
        (if ltb start end then some (record { base = base; num = end - 1 }) else bus)
        (buses_from (end - start) start base s).slots
entry-IsListed bus start end base s e h = elim (Bool-cases (ltb start end)) [
  | inl some_bus ↦
      let p : start < end = ltb→lt start end some_bus in
      let left : end - start ≡ suc (end - 1 - start) = omega arith in
      rw (some_bus, left)
        (buses_from-IsListed bus (end - 1 - start) start base (end - 1) s e h (omega arith))
  | inr no_bus ↦ rw no_bus (buses_from-zero bus start end base s (ground (arith, no_bus)) h)
]

entries_from-IsListed :
    (n i : ℕ) (m : Mem) (mcfg : ℕ) (bus : Option Bus) (s : State)
    → s.index ≡ 0
    → IsListed bus s.slots
    → IsListed (last_bus n i m mcfg bus) (entries_from n i m mcfg s).slots
unfolding entries_from
entries_from-IsListed zero i m mcfg bus s e h = h
entries_from-IsListed (suc n) i m mcfg bus s e h =
    let entry = config_space mcfg i in
    let start = pci_num_start m entry in
    let end = pci_num_end m entry in
    let base = base_addr m entry in
    entries_from-IsListed n (i + 1) m mcfg _ (buses_from (end - start) start base s)
      (buses_from-index (end - start) start base s e) (entry-IsListed bus start end base s e h)

clear_from-low :
    (n i : ℕ) (slots : Slots) (x : ℕ)
    → (i ≤ x) ⊎ (slots x ≡ 0)
    → x < i + n
    → clear_from n i slots x ≡ 0
unfolding clear_from
clear_from-low zero i slots x h p = omega (arith, h)
clear_from-low (suc n) i slots x h p = clear_from-low n (i + 1) _ x (ground arith) (omega arith)

-- pcie_get_config_space_addrs gives, for any table and whatever the array held, the 256 functions of
-- the last bus that the table's entries give, and 0 in the slots behind them; and 0 in all its slots
-- where the entries give no bus.
pub pcie_get_config_space_addrs-IsListed :
    (m : Mem) (mcfg : ℕ) (before : Slots)
    → IsListed
        (last_bus (config_space_entries m mcfg) 0 m mcfg none)
        (pcie_get_config_space_addrs m mcfg before)
unfolding pcie_get_config_space_addrs
pcie_get_config_space_addrs-IsListed m mcfg before =
    entries_from-IsListed (config_space_entries m mcfg) 0 m mcfg none _ refl
      (λ x p. clear_from-low 0xfff 0 before x (inl (omega arith)) p)
