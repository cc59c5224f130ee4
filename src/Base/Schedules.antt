-- ===== src/Base/Schedules.antt =====
-- Runs of a step function under a schedule, counted, and the bound that a measure gives.
use Prim.Native.Nat.{ℕ, suc, ◌+◌, ◌≤◌, ◌<◌}
use mathlib.Core.Path.{◌≡◌}
use mathlib.Core.Option.{Option, some}
use native.Mathlib.Omega.{arith}

module _ {A S : Type 0} (turn : A → S → Option S) where
  -- The states after `n` steps.
  pub data Steps (start : S) : ℕ → S → Type 0 where
    here : Steps start 0 start
    later :
        {n : ℕ} {s u : S} → Steps start n s → (a : A) → turn a s ≡ some u → Steps start (suc n) u

  abbrev pub CanStep : S → Type 0
  CanStep s = (a : A) × (u : S) × (turn a s ≡ some u)

  module _ (Inv : S → Type 0) (work : S → ℕ)
      (goes : (a : A) (s u : S) → Inv s → turn a s ≡ some u → Inv u × (work u < work s)) where
    -- Where each step keeps the invariant and leaves less to do, there are not too many.
    pub Steps-work :
        {start : S} {n : ℕ} {s : S}
        → Inv start
        → Steps start n s
        → Inv s × (n + work s ≤ work start)
    Steps-work i here = (i, omega arith)
    Steps-work i (later {n} {s} {u} r a e) =
        let (j, b) = Steps-work i r in let (k, l) = goes a s u j e in (k, omega (arith, b, l))
