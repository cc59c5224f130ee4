-- ===== src/Restaurant/Main.antt =====
-- app/main.c: the main process with its children, its clock and the handler of Ctrl+C, as a machine
-- whose steps are its calls.
use linux_exercises.Base.{
  ℕ, ◌-◌, Bool, true, false, Option, List, [], ◌∷◌, ◌++◌, if◌then◌else◌, ltb, leb, length,
}
use linux_exercises.Restaurant.Shared.{SharedData, print_tray_status}

-- What `fork` returns to the parent; `none` is -1.
abbrev pub Pid : Type 0
Pid = Option ℕ

-- What main does, besides its printing of plain notices.
pub data Event : Type 0 where
  made_child called_kill called_waitpid : Pid → Event
  status : ℕ × ℕ → Event
  simulation_finished got_sigint removed_memory : Event

-- Where main is: before `signal`; in `main` after it; in `cleanup_all`, with the children whose `kill`
-- or `waitpid` is to come, or about to remove the memory, each called from `main` or, where the
-- Boolean says so, from the handler, which keeps SIGINT blocked; about to return from `main`; ended.
-- `killed` is the end by a SIGINT that is not handled.
pub data Stage : Type 0 where
  starting live leaving ended killed : Stage
  killing waiting : (in_handler : Bool) → (left : List Pid) → Stage
  removing : (in_handler : Bool) → Stage

pub record Main : Type 0 where
  pub children : List Pid
  pub stage : Stage
  pub log : List Event

abbrev pub begin : Main
begin = record { children = []; stage = starting; log = [] }

-- `handle_sigint`, up to its call of `cleanup_all`.
unfoldable pub handle_sigint : Main → Main
handle_sigint m = record m { stage = killing true m.children; log = got_sigint ∷ m.log }

-- What happens to the main process: `signal` or a call of `fork` returns, a `sleep(10)` is over, with
-- the time and the memory as it is at each read of the status line, the next call of `cleanup_all`
-- or the end of `main` is made, or Ctrl+C is pressed. A fork and the store of its result are one.
pub data Input : Type 0 where
  handler_set goes_on ctrl_c : Input
  fork_returns : Pid → Input
  wakes : (now : ℕ) → (seen : ℕ → SharedData) → Input

abbrev pub num_children : ℕ
num_children = 5

-- After a status line: `time(NULL) - start >= 60`.
abbrev pub check_time : (start now : ℕ) → Main → Main
check_time start now m =
    if leb 60 (now - start)
    then record m { stage = killing false m.children; log = simulation_finished ∷ m.log }
    else m

-- `main` forks until it has five children, and then sleeps.
unfoldable pub live_step : (start : ℕ) → Input → Main → Main
live_step start ctrl_c m = handle_sigint m
live_step start (fork_returns p) m =
    if leb num_children (length m.children)
    then m
    else record m { children = m.children ++ p ∷ []; log = made_child p ∷ m.log }
live_step start (wakes now seen) m =
    if ltb (length m.children) num_children
    then m
    else check_time start now (record m { log = status (print_tray_status seen) ∷ m.log })
live_step start _ m = m

-- Ctrl+C in `cleanup_all`.
abbrev pub interrupt : (in_handler : Bool) → Main → Main
interrupt true m = m
interrupt false m = handle_sigint m

-- `exit(0)` in the handler, or back in `main`.
abbrev pub after_cleanup : (in_handler : Bool) → Stage
after_cleanup true = ended
after_cleanup false = leaving

-- `cleanup_all` and `cleanup_shared_memory`, from one call to the next.
unfoldable pub cleanup_all : Stage → Main → Main
cleanup_all (killing h (p ∷ ps)) m = record m { stage = killing h ps; log = called_kill p ∷ m.log }
cleanup_all (killing h []) m = record m { stage = waiting h m.children }
cleanup_all (waiting h (p ∷ ps)) m = record m {
  stage = waiting h ps;
  log = called_waitpid p ∷ m.log;
}
cleanup_all (waiting h []) m = record m { stage = removing h }
cleanup_all (removing h) m = record m { stage = after_cleanup h; log = removed_memory ∷ m.log }
cleanup_all _ m = m

unfoldable pub main_step : (start : ℕ) → Stage → Input → Main → Main
main_step start starting handler_set m = record m { stage = live }
main_step start starting ctrl_c m = record m { stage = killed }
main_step start live i m = live_step start i m
main_step start (killing h ps) goes_on m = cleanup_all (killing h ps) m
main_step start (killing h ps) ctrl_c m = interrupt h m
main_step start (waiting h ps) goes_on m = cleanup_all (waiting h ps) m
main_step start (waiting h ps) ctrl_c m = interrupt h m
main_step start (removing h) goes_on m = cleanup_all (removing h) m
main_step start (removing h) ctrl_c m = interrupt h m
main_step start leaving goes_on m = record m { stage = ended }
main_step start leaving ctrl_c m = handle_sigint m
main_step start _ _ m = m

unfoldable pub main_run : (start : ℕ) → List Input → Main → Main
main_run start [] m = m
main_run start (i ∷ is) m = main_run start is (main_step start m.stage i m)
