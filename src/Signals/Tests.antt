-- ===== src/Signals/Tests.antt =====
-- The theorems at concrete runs.
use linux_exercises.Base.{
  Steps, here, later, CanStep, ◌≤◌, ◌⊎◌, ◌≡◌, refl, true, false, none, some, List, [], ◌∷◌, ◌++◌,
}
use linux_exercises.Strings.{cut_newline}
use linux_exercises.Signals.Counter.{counted, exiting, exited, Wake, count_loop, sigint_main}
use linux_exercises.Signals.Counting.{has_exited}
use linux_exercises.Signals.Select.{
  Flags, interrupted, ready, round, returned, you_inputed, sigint_received, sigterm_received,
  handle_signal, select_loop,
}
use linux_exercises.Signals.Select as Select
use linux_exercises.Signals.Answers.{Input, input_rounds}
use linux_exercises.Signals.Pair
use linux_exercises.Signals.Pair.{
  Pair, testing, sending, failed, finished, the_parent, the_child, sigusr1, pair_turn, parent_step,
  child_step, deliver_usr1,
}
use linux_exercises.Signals.Ends.{HasEnded, pair_ends}

-- One signal, and two at once.
abbrev one : Wake
one = record { before_print = 0; before_test = 0; before_exit = 0 }

abbrev two : Wake
two = record { before_print = 1; before_test = 0; before_exit = 0 }

one_by_one :
    sigint_main (one ∷ one ∷ one ∷ []) ≡ exited (exiting 3 ∷ counted 3 ∷ counted 2 ∷ counted 1 ∷ [])
unfolding sigint_main count_loop
one_by_one = refl

stuck : has_exited (sigint_main ((two ∷ two ∷ []) ++ one ∷ two ∷ [])) ≡ false
unfolding sigint_main count_loop
stuck = refl

abbrev no_signal : Flags
no_signal = record { sigint = false; sigterm = false }

abbrev sigterm : Flags
sigterm = record { sigint = false; sigterm = true }

abbrev inputs : List Input
inputs =
    (record { sigint = true; sigterm = false }, some (b'h' ∷ b'i' ∷ [])) ∷ (no_signal, none) ∷ []

goes_out :
    select_loop no_signal (input_rounds inputs ++ round sigterm interrupted ∷ []) []
    ≡ returned
        (Select.exiting ∷ sigterm_received ∷ sigint_received ∷ you_inputed (b'h' ∷ b'i' ∷ []) ∷ [])
unfolding select_loop handle_signal cut_newline
goes_out = refl

-- The child is in its loop, has counted one signal, and has the next one pending.
abbrev one_counted : Pair
one_counted = record { parent = sending 2; child = testing; count = 1; usr1 = true; term = false }

one_counted-Steps : Steps pair_turn Pair.start 7 one_counted
unfolding pair_turn parent_step child_step deliver_usr1
one_counted-Steps =
    let a = later here (the_parent true) refl in
    let b = later a the_child refl in
    let c = later b the_child refl in
    let d = later c (the_parent true) refl in
    let e = later d sigusr1 refl in let f = later e the_child refl in later f (the_parent true) refl

pair_ends_example :
    (7 ≤ 34)
    × ((one_counted.parent ≡ failed)
        ⊎ ((one_counted.parent ≡ finished) × HasEnded one_counted.child one_counted.count)
        ⊎ CanStep pair_turn one_counted)
pair_ends_example = pair_ends one_counted-Steps
