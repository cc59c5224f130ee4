-- ===== src/Restaurant/Tests.antt =====
-- The theorems at concrete states.
use linux_exercises.Base.{
  ℕ, ◌≡◌, refl, Bool, true, some, Option-cases, inl, inr, arith, List, [], ◌∷◌, get_elem?, ◌++◌,
  ◌⊎◌, replicate,
}
use linux_exercises.Restaurant.Shared.{
  Kind, veg, non, SharedData, tray_size, init_tray, init_shared_memory, print_tray_status,
  status_loop, filled,
}
use linux_exercises.Restaurant.Dishes.{
  replace_first, add_vegan_dish_once, add_nonvegan_dish_once, eat_vegan_once, eat_nonvegan_once,
}
use linux_exercises.Restaurant.System.{
  Stage, reserved, chef, customer, step, cook_step, eat_step, System, turn, start_of, Reach, here,
  later, run,
}
use linux_exercises.Restaurant.Invariant.{holds, Served}
use linux_exercises.Restaurant.Safety.{mutual_exclusion, scan_succeeds}
use linux_exercises.Restaurant.Progress.{CanStep, no_deadlock}
use linux_exercises.Restaurant.Main.{
  begin, main_run, main_step, live_step, cleanup_all, handle_sigint, Input, goes_on, ctrl_c, ended,
}
use linux_exercises.Restaurant.Cleanup.{Cleaned, Interrupted}
use linux_exercises.Restaurant.Ending.{forks, sleeps, main_run-Ended}
use linux_exercises.Restaurant.OneShot.{
  IsQuiet, Outcome, LaidVegan, AteVegan, AteNonvegan, LaidNonvegan, one_shot-trays,
}

abbrev fresh : SharedData
fresh = record { vegan = init_tray; non = init_tray }

init_ok : init_shared_memory true true true ≡ some fresh
unfolding init_shared_memory
init_ok = refl

run-Reach : (is : List ℕ) (s : System) {a : System} → Reach a s → Reach a (run is s)
unfolding run
run-Reach [] s r = r
run-Reach (i ∷ is) s r = elim (Option-cases (turn i s)) [
  | inl e ↦ rw e (run-Reach is s r)
  | inr (t, e) ↦ rw e (run-Reach is t (later r i e))
]

-- The vegan chef has laid down a dish, and the vegan customer holds the mutex.
served : System
served = run (1 ∷ 1 ∷ 1 ∷ 1 ∷ 1 ∷ 1 ∷ 3 ∷ 3 ∷ 3 ∷ []) (start_of fresh)

served-Reach : Reach (start_of fresh) served
unfolding served
served-Reach = run-Reach _ (start_of fresh) here

chef_at : get_elem? served.procs 1 ≡ some (chef veg reserved)
unfolding served run turn step cook_step eat_step
chef_at = refl

customer_at : (b : Bool) × (get_elem? served.procs 3 ≡ some (customer veg (Stage.scanned b)))
unfolding served run turn step cook_step eat_step
customer_at = (_, refl)

mutual_exclusion_example : holds veg (chef veg reserved) ≡ 0
mutual_exclusion_example =
    mutual_exclusion true true true init_ok served-Reach veg 3 1 (λ e. absurd (omega (arith, e)))
      customer_at.1 chef_at refl

scan_succeeds_example : Served (customer veg (Stage.scanned customer_at.0))
scan_succeeds_example = scan_succeeds true true true init_ok served-Reach 3 customer_at.1

no_deadlock_example : (i : ℕ) × CanStep served i
no_deadlock_example = no_deadlock true true true init_ok served-Reach

fresh-IsQuiet : (k : Kind) → IsQuiet k init_tray
fresh-IsQuiet k = record {
  size = refl;
  only = ground arith;
  lock = refl;
  dishes = refl;
  holes = refl;
}

one_shot-trays_example :
    Outcome (filled fresh.vegan.slots ≡ tray_size) add_vegan_dish_once fresh (LaidVegan fresh)
    × Outcome (filled fresh.vegan.slots ≡ 0) eat_vegan_once fresh (AteVegan fresh)
    × Outcome (filled fresh.non.slots ≡ 0) eat_nonvegan_once fresh (AteNonvegan fresh)
    × Outcome (filled fresh.non.slots ≡ tray_size) add_nonvegan_dish_once fresh (LaidNonvegan fresh)
one_shot-trays_example = one_shot-trays fresh (fresh-IsQuiet veg) (fresh-IsQuiet non)

-- The vegan chef has laid down one dish, and the memory is left alone while the status is printed.
cooked : System
cooked = run (1 ∷ 1 ∷ 1 ∷ 1 ∷ 1 ∷ []) (start_of fresh)

status_line : print_tray_status (λ k. cooked.shared) ≡ (1, 0)
unfolding print_tray_status status_loop cooked run turn step cook_step replace_first
status_line = refl

-- A minute is over, and Ctrl+C comes after two calls of the cleanup.
abbrev inputs : List Input
inputs =
    forks (some 11) (some 12) (some 13) (some 14) (some 15)
    ++ sleeps ((10, (λ k. fresh)) ∷ (70, (λ k. fresh)) ∷ [])
    ++ goes_on ∷ goes_on ∷ ctrl_c ∷ replicate 13 goes_on

inputs_end : (main_run 5 inputs begin).stage ≡ ended
unfolding main_run main_step live_step cleanup_all handle_sigint
inputs_end = refl

main_run-Ended_example :
    Cleaned (main_run 5 inputs begin).children (main_run 5 inputs begin).log []
    ⊎ Interrupted (main_run 5 inputs begin).children (main_run 5 inputs begin).log []
main_run-Ended_example = main_run-Ended 5 inputs inputs_end
