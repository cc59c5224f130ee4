-- ===== src/Threads/Results.antt =====
-- S4_Thread/fun_thread_join.c: two threads that each return a text in memory of their own, one by
-- `return` and one by `pthread_exit`, and main that joins them and prints and frees the texts.
pub mod Invariant
use linux_exercises.Base.{ℕ, Bool, true, false, Option, none, some, List, [], ◌∷◌}

-- Where a thread is: not created, before `printf`, before `malloc`, before `snprintf` with what `malloc`
-- gave, or over with its text; then main frees it. `spoilt` is a NULL passed to `snprintf`.
pub data Worker : Type 0 where
  absent printing allocating over freed spoilt : Worker
  filling : (got : Bool) → Worker

pub data Line : Type 0 where
  working result : (num : ℕ) → Line

-- Where main is: before each of its calls. `undefined` is a use of a handle that was never set, or of
-- a text that is not there.
pub data Main : Type 0 where
  creating1 creating2 joining1 joining2 showing1 showing2 freeing1 freeing2 returned : Main
  undefined : Main

-- The latest line stands first.
pub record Program : Type 0 where
  pub main : Main
  pub first : Worker
  pub second : Worker
  pub log : List Line

-- `func_return` and `func_exit` for thread `num`: the next stage, and what is printed.
unfoldable pub worker_step :
    (ok : Bool) → (num : ℕ) → Worker → List Line → Option (Worker × List Line)
worker_step ok num printing log = some (allocating, working num ∷ log)
worker_step ok num allocating log = some (filling ok, log)
worker_step ok num (filling true) log = some (over, log)
worker_step ok num (filling false) log = some (spoilt, log)
worker_step ok num _ log = none

-- `pthread_create`; a failure is not looked at.
abbrev pub create : (ok : Bool) → Worker
create true = printing
create false = absent

-- `pthread_join`
abbrev pub join : Worker → (next : Main) → Option Main
join over next = some next
join absent next = some undefined
join freed next = some undefined
join _ next = none

-- `printf("%s", (char *) ret)`
abbrev pub show : Worker → (num : ℕ) → (next : Main) → Program → Program
show over num next s = record s { main = next; log = result num ∷ s.log }
show _ num next s = record s { main = undefined }

abbrev pub to_main : Option Main → Program → Option Program
to_main none s = none
to_main (some m) s = some (record s { main = m })

unfoldable pub main_step : (ok : Bool) → Main → Program → Option Program
main_step ok creating1 s = some (record s { main = creating2; first = create ok })
main_step ok creating2 s = some (record s { main = joining1; second = create ok })
main_step ok joining1 s = to_main (join s.first joining2) s
main_step ok joining2 s = to_main (join s.second showing1) s
main_step ok showing1 s = some (show s.first 1 showing2 s)
main_step ok showing2 s = some (show s.second 2 freeing1 s)
main_step ok freeing1 s = some (record s { main = freeing2; first = freed })
main_step ok freeing2 s = some (record s { main = returned; second = freed })
main_step ok returned s = none
main_step ok undefined s = none

pub data Actor : Type 0 where
  main_thread thread1 thread2 : Actor

abbrev pub as_first : Option (Worker × List Line) → Program → Option Program
as_first none s = none
as_first (some (w, log)) s = some (record s { first = w; log = log })

abbrev pub as_second : Option (Worker × List Line) → Program → Option Program
as_second none s = none
as_second (some (w, log)) s = some (record s { second = w; log = log })

unfoldable pub turn : (ok : Bool) → Actor → Program → Option Program
turn ok main_thread s = main_step ok s.main s
turn ok thread1 s = as_first (worker_step ok 1 s.first s.log) s
turn ok thread2 s = as_second (worker_step ok 2 s.second s.log) s

abbrev pub start : Program
start = record { main = creating1; first = absent; second = absent; log = [] }
