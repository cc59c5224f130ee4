-- ===== src/Threads/Race.antt =====
-- S4_Thread/ex2_race_condition_mutx.c: main creates threads that increment `g_counter` without its
-- lock, joins them and prints the counter. An increment is a load and a store, each one step.
pub mod Invariant
pub mod Stages
pub mod Schedule
pub mod Outcome
use linux_exercises.Base.{
  ℕ, ◌+◌, Bool, true, false, Option, none, some, List, [], ◌∷◌, ◌++◌, ltb, if◌then◌else◌, ◌≡◌,
  length, get_elem?, set,
}

abbrev pub num_threads : ℕ
num_threads = 3

abbrev pub increments : ℕ
increments = 1000000

-- A thread with `i` increments behind it: before the test of its loop, or with the value that it has
-- loaded.
pub data Thread : Type 0 where
  counting : (i : ℕ) → Thread
  loaded : (i value : ℕ) → Thread

-- A step of `increment_counter`, with what it leaves in `g_counter`.
unfoldable pub thread_step : Thread → (counter : ℕ) → Option (Thread × ℕ)
thread_step (counting i) c = if ltb i increments then some (loaded i c, c) else none
thread_step (loaded i v) c = some (counting (i + 1), v + 1)

-- A thread that `pthread_join` does not wait for.
abbrev pub ended : Thread → Bool
ended (counting i) = if ltb i increments then false else true
ended (loaded i v) = false

-- Where main is: before `pthread_mutex_init`, in the loop that creates the threads, about to join
-- thread `j`, past its last line, or ended with EXIT_FAILURE.
pub data Stage : Type 0 where
  starting creating failed : Stage
  joining : (j : ℕ) → Stage
  printed : (counter : ℕ) → Stage

pub record Race : Type 0 where
  pub counter : ℕ
  pub threads : List Thread
  pub stage : Stage

abbrev pub to_stage : Stage → Race → Race
to_stage s r = record r { stage = s }

abbrev pub create : (ok : Bool) → Race → Race
create true r = record r { threads = r.threads ++ counting 0 ∷ [] }
create false r = to_stage failed r

abbrev pub join : (over : Bool) → (j : ℕ) → Race → Option Race
join true j r = some (to_stage (joining (j + 1)) r)
join false j r = none

abbrev pub join_at : Option Thread → (j : ℕ) → Race → Option Race
join_at none j r = none
join_at (some t) j r = join (ended t) j r

-- A step of `main`; `ok` is whether its call succeeds.
unfoldable pub main_step : Stage → (ok : Bool) → Race → Option Race
main_step starting true r = some (to_stage creating r)
main_step starting false r = some (to_stage failed r)
main_step creating ok r =
    if ltb (length r.threads) num_threads then some (create ok r) else some (to_stage (joining 0) r)
main_step (joining j) ok r =
    if ltb j num_threads
    then join_at (get_elem? r.threads j) j r
    else some (to_stage (printed r.counter) r)
main_step failed ok r = none
main_step (printed c) ok r = none

-- The threads end with the process.
abbrev pub alive : Stage → Bool
alive failed = false
alive (printed c) = false
alive _ = true

abbrev pub goes_on : (j : ℕ) → Option (Thread × ℕ) → Race → Option Race
goes_on j none r = none
goes_on j (some (t, c)) r = some (record r { counter = c; threads = set r.threads j t })

abbrev pub thread_at : (j : ℕ) → Option Thread → Race → Option Race
thread_at j none r = none
thread_at j (some t) r = goes_on j (thread_step t r.counter) r

pub data Actor : Type 0 where
  main_thread : (ok : Bool) → Actor
  thread : (j : ℕ) → Actor

unfoldable pub turn : Actor → Race → Option Race
turn (main_thread ok) r = main_step r.stage ok r
turn (thread j) r = if alive r.stage then thread_at j (get_elem? r.threads j) r else none

abbrev pub start : Race
start = record { counter = 0; threads = []; stage = starting }

pub data Reach : Race → Type 0 where
  here : Reach start
  later : {r u : Race} → Reach r → (a : Actor) → turn a r ≡ some u → Reach u
