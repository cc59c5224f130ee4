-- ===== src/Restaurant/Safety.antt =====
-- What holds in every state that the restaurant reaches from the shared memory of
-- `init_shared_memory` and the five processes of app/main.c.
use linux_exercises.Base.{ℕ, ◌≡◌, ◌≢◌, Bool, some, arith, get_elem?, add-le-total, All-get_elem?}
use linux_exercises.Restaurant.Shared.{Kind, veg, non, SharedData, init_shared_memory}
use linux_exercises.Restaurant.System.{Process, System, start_of, Reach}
use linux_exercises.Restaurant.Invariant.{holds, Served, Counted, Inv, Inv-start_of, Reach-Inv}

module _ (a b c : Bool) {d : SharedData} (init : init_shared_memory a b c ≡ some d) {t : System}
    (r : Reach (start_of d) t) where
  inv : Inv t
  inv = Reach-Inv (Inv-start_of a b c init) r

  counted : (k : Kind) → Counted k t.shared t.procs
  counted veg = inv.vegan
  counted non = inv.non

  -- From the shared memory of init_shared_memory and the five processes that main forks, whatever
  -- the interleaving, two different processes are never both between the sem_wait and the
  -- sem_post of one tray's mutex.
  pub mutual_exclusion :
      (k : Kind) (i j : ℕ) {p q : Process}
      → i ≢ j
      → get_elem? t.procs i ≡ some p
      → get_elem? t.procs j ≡ some q
      → holds k p ≡ 1
      → holds k q ≡ 0
  mutual_exclusion k i j {p} {q} ne e f h =
      omega (arith, counted k, add-le-total (holds k) t.procs i j p q ne e f)

  -- In every reachable state, a process that is past its scanning loop found what it looked for:
  -- a chef a free slot, a customer a dish of its kind.
  pub scan_succeeds : (i : ℕ) {p : Process} → get_elem? t.procs i ≡ some p → Served p
  scan_succeeds i e = All-get_elem? Served t.procs i inv.served e
