-- ===== src/Signals/Counter.antt =====
-- ex1_creat_run_signal.c and ex2_sigalrm_timer.c: a handler counts signals in `g_count`, and the loop
-- looks at the count each time `pause` returns.
use linux_exercises.Base.{ℕ, ◌+◌, Bool, true, false, List, [], ◌∷◌, ◌==◌, leb, if◌then◌else◌}

pub data Event : Type 0 where
  counted exiting : (count : ℕ) → Event
  alarm_set : (seconds : ℕ) → Event

-- `pause` returns after a signal has been handled; more may be handled before the count is printed,
-- then before it is tested, and then before it is printed again.
pub record Wake : Type 0 where
  pub before_print : ℕ
  pub before_test : ℕ
  pub before_exit : ℕ

-- The program has called `_exit(0)`, or waits in `pause` with this count. The latest event stands
-- first.
pub data Run : Type 0 where
  exited : List Event → Run
  paused : (count : ℕ) → List Event → Run

abbrev pub printed : ℕ → Wake → ℕ
printed count w = count + 1 + w.before_print

abbrev pub tested : ℕ → Wake → ℕ
tested count w = printed count w + w.before_test

abbrev pub rearm : Bool → List Event → List Event
rearm true log = alarm_set 1 ∷ log
rearm false log = log

-- The loop of `main`: whether it ends, by the count, and whether it sets the alarm again otherwise.
unfoldable pub count_loop :
    (reached : ℕ → Bool) → (again : Bool) → (count : ℕ) → List Wake → List Event → Run
count_loop reached again count [] log = paused count log
count_loop reached again count (w ∷ ws) log =
    let rest =
      count_loop reached again (tested count w) ws
        (rearm again (counted (printed count w) ∷ log)) in
    if reached (tested count w)
    then exited (exiting (tested count w + w.before_exit) ∷ counted (printed count w) ∷ log)
    else rest

-- `main` of ex1_creat_run_signal.c: `g_count == MAX_TIME`.
unfoldable pub sigint_main : List Wake → Run
sigint_main ws = count_loop (λ n. n == 3) false 0 ws []

-- `main` of ex2_sigalrm_timer.c: `g_count >= MAX_TIME`.
unfoldable pub sigalrm_main : List Wake → Run
sigalrm_main ws = count_loop (leb 10) true 0 ws (alarm_set 1 ∷ [])
