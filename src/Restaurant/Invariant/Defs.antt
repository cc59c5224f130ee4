-- ===== src/Restaurant/Invariant/Defs.antt =====
-- What the semaphores of a tray count.
use linux_exercises.Base.{ℕ, ◌+◌, ◌≡◌, Bool, true, some, List, arith, length, All, total}
use linux_exercises.Restaurant.Shared.{
  Kind, veg, non, Tray, SharedData, filled, tray_size, init_shared_memory,
}
use linux_exercises.Restaurant.System.{
  Stage, reserved, locked, scanned, unlocked, Process, chef, customer, hybrid, tray, System,
  start_of,
}
use linux_exercises.Restaurant.Scan.{Only}

-- Between the two calls on the mutex.
abbrev pub critical : Stage → ℕ
critical locked = 1
critical (scanned b) = 1
critical _ = 0

-- Past the first `sem_wait` and before the loop; past the loop and before the last `sem_post`.
abbrev pub before : Stage → ℕ
before reserved = 1
before locked = 1
before _ = 0

abbrev pub after : Stage → ℕ
after (scanned b) = 1
after (unlocked b) = 1
after _ = 0

abbrev pub on : Kind → Kind → ℕ → ℕ
on veg veg n = n
on non non n = n
on _ _ n = 0

-- What a process counts for at the tray of kind `k`: it is in the critical section, it answers for
-- a free slot, it answers for a dish.
abbrev pub holds : Kind → Process → ℕ
holds k (chef j s) = on k j (critical s)
holds k (customer j s) = on k j (critical s)
holds k (hybrid j s) = on k j (critical s)

abbrev pub hole : Kind → Process → ℕ
hole k (chef j s) = on k j (before s)
hole k (customer j s) = on k j (after s)
hole k (hybrid j s) = on k j (after s)

abbrev pub dish : Kind → Process → ℕ
dish k (chef j s) = on k j (after s)
dish k (customer j s) = on k j (before s)
dish k (hybrid j s) = on k j (before s)

-- A process that is past its loop found what it looked for.
abbrev pub Served : Process → Type 0
Served (chef k (scanned b)) = b ≡ true
Served (chef k (unlocked b)) = b ≡ true
Served (customer k (scanned b)) = b ≡ true
Served (customer k (unlocked b)) = b ≡ true
Served (hybrid k (scanned b)) = b ≡ true
Served (hybrid k (unlocked b)) = b ≡ true
Served _ = Unit

-- A tray, with the numbers of processes in its critical section, answering for a slot, for a dish.
pub record IsCounted (k : Kind) (t : Tray) (c h d : ℕ) : Type 0 where
  pub size : length t.slots ≡ tray_size
  pub only : All (Only k) t.slots
  pub lock : t.mutex + c ≡ 1
  pub dishes : filled t.slots ≡ t.full + d
  pub holes : filled t.slots + t.empty + h ≡ tray_size

abbrev pub Counted : Kind → SharedData → List Process → Type 0
Counted k d ps = IsCounted k (tray k d) (total (holds k) ps) (total (hole k) ps) (total (dish k) ps)

pub record Inv (s : System) : Type 0 where
  pub vegan : Counted veg s.shared s.procs
  pub non : Counted non s.shared s.procs
  pub served : All Served s.procs

pub Inv-start_of :
    (a b c : Bool) {d : SharedData} → init_shared_memory a b c ≡ some d → Inv (start_of d)
unfolding init_shared_memory
Inv-start_of a b c h = ground arith
