-- ===== src/Restaurant/Invariant/Trays.antt =====
-- One step of a chef or a customer at its own tray keeps the counts of that tray.
use linux_exercises.Base.{ℕ, ◌+◌, ◌≤◌, ◌≡◌, some, arith}
use linux_exercises.Restaurant.Shared.{Kind, Tray}
use linux_exercises.Restaurant.System.{
  Stage, head, reserved, locked, scanned, unlocked, cook_step, eat_step, chef, customer,
}
use linux_exercises.Restaurant.Scan.{place-Placed, take-Freed}
use linux_exercises.Restaurant.Invariant.Defs.{critical, before, after, Served, IsCounted}

-- A step at its own tray, where `c'`, `h'` and `d'` are the numbers after it.
pub cook_step-IsCounted :
    (k : Kind) {t t' : Tray} (s : Stage) {s' : Stage} {c h d c' h' d' : ℕ}
    → IsCounted k t c h d
    → Served (chef k s)
    → c' + critical s ≡ c + critical s'
    → h' + before s ≡ h + before s'
    → d' + after s ≡ d + after s'
    → before s ≤ h
    → cook_step k t s ≡ some (t', s')
    → IsCounted k t' c' h' d' × Served (chef k s')
unfolding cook_step
cook_step-IsCounted k head v sv ec eh ed le e = ground arith
cook_step-IsCounted k reserved v sv ec eh ed le e = ground arith
cook_step-IsCounted k {t} locked v sv ec eh ed le e = ground (arith, place-Placed k t.slots v.only)
cook_step-IsCounted k (scanned b) v sv ec eh ed le e = ground arith
cook_step-IsCounted k (unlocked b) v sv ec eh ed le e = ground arith

pub eat_step-IsCounted :
    (k : Kind) {t t' : Tray} (s : Stage) {s' : Stage} {c h d c' h' d' : ℕ}
    → IsCounted k t c h d
    → Served (customer k s)
    → c' + critical s ≡ c + critical s'
    → h' + after s ≡ h + after s'
    → d' + before s ≡ d + before s'
    → before s ≤ d
    → eat_step k t s ≡ some (t', s')
    → IsCounted k t' c' h' d' × Served (customer k s')
unfolding eat_step
eat_step-IsCounted k head v sv ec eh ed le e = ground arith
eat_step-IsCounted k reserved v sv ec eh ed le e = ground arith
eat_step-IsCounted k {t} locked v sv ec eh ed le e = ground (arith, take-Freed k t.slots v.only)
eat_step-IsCounted k (scanned b) v sv ec eh ed le e = ground arith
eat_step-IsCounted k (unlocked b) v sv ec eh ed le e = ground arith
