-- ===== src/Signals/Pair.antt =====
-- ex3_ipc_sigusr1.c as two processes: the parent sends SIGUSR1 five times, then SIGTERM, and waits; a
-- signal is pending until it is delivered, and is not counted twice while it is pending.
use linux_exercises.Base.{ℕ, suc, Bool, true, false, Option, none, some, ltb, leb, if◌then◌else◌}

abbrev pub max_time : ℕ
max_time = 5

-- Where the child is: not forked yet, before `signal`, before `pause`, in `pause`, before its first
-- `printf`, before the test of the count, before its last `printf`, or ended, with the count that it
-- printed or by a signal.
pub data Child : Type 0 where
  unborn starting before_pause pausing awake testing leaving : Child
  exited : (count : ℕ) → Child
  killed_usr1 killed_term : Child

-- Where the parent is: before `fork`, in its loop, before the last `kill`, before `wait` returns, or
-- ended, with code 1 or 0.
pub data Parent : Type 0 where
  forking terminating waiting failed finished : Parent
  sending : (i : ℕ) → Parent

pub record Pair : Type 0 where
  pub parent : Parent
  pub child : Child
  pub count : ℕ
  pub usr1 : Bool
  pub term : Bool

abbrev pub is_ended : Child → Bool
is_ended (exited n) = true
is_ended killed_usr1 = true
is_ended killed_term = true
is_ended _ = false

abbrev pub fork : (ok : Bool) → Pair → Pair
fork true s = record s { parent = sending 0; child = starting }
fork false s = record s { parent = failed }

-- A signal to a process that has ended changes nothing.
abbrev pub kill_usr1 : (ended : Bool) → Pair → Pair
kill_usr1 true s = s
kill_usr1 false s = record s { usr1 = true }

abbrev pub kill_term : (ended : Bool) → Pair → Pair
kill_term true s = s
kill_term false s = record s { term = true }

abbrev pub wait : (ended : Bool) → Pair → Option Pair
wait true s = some (record s { parent = finished })
wait false s = none

unfoldable pub parent_step : Parent → (ok : Bool) → Pair → Option Pair
parent_step forking ok s = some (fork ok s)
parent_step (sending i) ok s =
    if ltb i max_time
    then some (record (kill_usr1 (is_ended s.child) s) { parent = sending (suc i) })
    else some (record s { parent = terminating })
parent_step terminating ok s = some (record (kill_term (is_ended s.child) s) { parent = waiting })
parent_step waiting ok s = wait (is_ended s.child) s
parent_step failed ok s = none
parent_step finished ok s = none

unfoldable pub child_step : Child → Pair → Option Pair
child_step starting s = some (record s { child = before_pause })
child_step before_pause s = some (record s { child = pausing })
child_step awake s = some (record s { child = testing })
child_step testing s =
    if leb max_time s.count
    then some (record s { child = leaving })
    else some (record s { child = before_pause })
child_step leaving s = some (record s { child = exited s.count })
child_step _ s = none

-- `handle_sigusr1`, after which `pause` returns; before `signal` the signal ends the process.
abbrev pub handle : Child → Pair → Option Pair
handle unborn s = none
handle starting s = some (record s { child = killed_usr1; usr1 = false })
handle pausing s = some (record s { child = awake; count = suc s.count; usr1 = false })
handle (exited n) s = none
handle killed_usr1 s = none
handle killed_term s = none
handle _ s = some (record s { count = suc s.count; usr1 = false })

unfoldable pub deliver_usr1 : Bool → Pair → Option Pair
deliver_usr1 false s = none
deliver_usr1 true s = handle s.child s

abbrev pub terminate : Child → Pair → Option Pair
terminate unborn s = none
terminate (exited n) s = none
terminate killed_usr1 s = none
terminate killed_term s = none
terminate _ s = some (record s { child = killed_term; term = false })

unfoldable pub deliver_term : Bool → Pair → Option Pair
deliver_term false s = none
deliver_term true s = terminate s.child s

pub data Actor : Type 0 where
  the_parent : (ok : Bool) → Actor
  the_child sigusr1 sigterm : Actor

unfoldable pub pair_turn : Actor → Pair → Option Pair
pair_turn (the_parent ok) s = parent_step s.parent ok s
pair_turn the_child s = child_step s.child s
pair_turn sigusr1 s = deliver_usr1 s.usr1 s
pair_turn sigterm s = deliver_term s.term s

abbrev pub start : Pair
start = record { parent = forking; child = unborn; count = 0; usr1 = false; term = false }
