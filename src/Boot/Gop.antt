-- ===== src/Boot/Gop.antt =====
-- How the boot loader chooses the graphics mode: bootloader.c 34 to 72. The firmware's QueryMode gives
-- a mode's width and height, or an error (`none`); SetMode tells whether it failed.
pub mod First
use osfort.Base.{ℕ, zero, suc, ◌+◌, Bool, ◌&&◌, ◌==◌, if◌then◌else◌, Option, none, some}

-- What the loader stops with, or the mode that is set in the end.
pub data GraphicsMode : Type 0 where
  not_queried not_set : GraphicsMode
  mode : ℕ → GraphicsMode

module _ (query_mode : ℕ → Option (ℕ × ℕ)) (set_fails : ℕ → Bool) where
  unfoldable pub set_mode : ℕ → GraphicsMode
  set_mode i = if set_fails i then not_set else mode i

  -- The loop at mode i with k modes left.
  unfoldable pub choose_from : ℕ → ℕ → ℕ → GraphicsMode
  choose_from zero i current = mode current
  choose_from (suc k) i current =
      let rest = choose_from k (i + 1) current in
      elim (query_mode i) as (λ _. GraphicsMode) [
        | none ↦ not_queried
        | some info ↦ if info.0 == 1920 && info.1 == 1080 then set_mode i else rest
      ]

  -- A protocol that has not started is set to mode 0 first. `current` is the mode that it has else.
  unfoldable pub choose_mode : Bool → ℕ → ℕ → GraphicsMode
  choose_mode not_started mode_count current =
      if not_started
      then (elim (set_mode 0) as (λ _. GraphicsMode) [
        | mode i ↦ choose_from mode_count 0 i
        | not_set ↦ not_set
        | not_queried ↦ not_queried
      ])
      else choose_from mode_count 0 current
