-- ===== src/Signals/Select.antt =====
-- ex4_select.c: a loop on `select` that answers lines of input, SIGINT and SIGTERM.
use linux_exercises.Base.{Bool, true, false, ◌||◌, Option, none, some, List, [], ◌∷◌, if◌then◌else◌}
use linux_exercises.Strings.{Text, cut_newline}

pub data Event : Type 0 where
  sigint_received sigterm_received select_failed exiting : Event
  you_inputed : Text → Event

-- `g_sigint` and `g_sigterm`.
pub record Flags : Type 0 where
  pub sigint : Bool
  pub sigterm : Bool

-- What `select` gives: a signal has interrupted it, another error, or input, with what `fgets` then
-- stores, if anything.
pub data Result : Type 0 where
  interrupted failed : Result
  ready : Option Text → Result

-- A round of the loop: the signals that are handled before `select` returns, and what it gives.
pub data Round : Type 0 where
  round : (came : Flags) → Result → Round

-- `main` has returned, or ended with EXIT_FAILURE, or waits in `select`. The latest event stands
-- first.
pub data Run : Type 0 where
  returned failure : List Event → Run
  waiting : Flags → List Event → Run

-- `handle_signal`, for the signals that came.
unfoldable pub handle_signal : (came : Flags) → Flags → Flags
handle_signal came f = record {
  sigint = f.sigint || came.sigint;
  sigterm = f.sigterm || came.sigterm;
}

abbrev pub tell_sigint : Bool → List Event → List Event
tell_sigint true log = sigint_received ∷ log
tell_sigint false log = log

abbrev pub echo_input : Option Text → List Event → List Event
echo_input none log = log
echo_input (some line) log = you_inputed (cut_newline line) ∷ log

-- The loop of `main`.
unfoldable pub select_loop : Flags → List Round → List Event → Run
select_loop f [] log = waiting f log
select_loop f (round came failed ∷ rs) log = failure (select_failed ∷ log)
select_loop f (round came (ready input) ∷ rs) log =
    select_loop (handle_signal came f) rs (echo_input input log)
select_loop f (round came interrupted ∷ rs) log =
    let g = handle_signal came f in
    let said = tell_sigint g.sigint log in
    let rest = select_loop (record g { sigint = false }) rs said in
    if g.sigterm then returned (exiting ∷ sigterm_received ∷ said) else rest
