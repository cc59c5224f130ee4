-- ===== src/MessageQueue/Worker.antt =====
-- task_worker.c: main as a machine, its handler of SIGINT, and the system of the worker with the
-- dispatchers that are started beside it.
use linux_exercises.Base.{
  ℕ, zero, suc, Bool, true, false, Option, none, some, List, [], ◌∷◌, ◌++◌, ◌≡◌, All,
}
use linux_exercises.Strings.{Text, NoNul}
use linux_exercises.MessageQueue.Tasks.{
  Got, got, waits, fails, Report, task_sent, null_terminate, dispatch,
}

pub data Event : Type 0 where
  queue_opened queue_closed queue_unlinked bye : Event
  open_refused receive_failed : Event
  task_done : (prio : ℕ) → Text → Event

-- Where main is: before `mq_open`, before `mq_receive` (or in the sleep before the loop), before it
-- prints a task that it has received, past the end of its buffer, or ended with this code.
pub data Stage : Type 0 where
  at_open at_loop past_end : Stage
  at_print : (prio : ℕ) → Text → Stage
  ended : (code : ℕ) → Stage

-- `mqdes` is whether the global is not -1. The latest event stands first.
pub record Worker : Type 0 where
  pub mqdes : Bool
  pub stage : Stage
  pub log : List Event

abbrev pub close_if : Bool → List Event → List Event
close_if true log = queue_closed ∷ log
close_if false log = log

unfoldable pub cleanup_and_exit : Worker → Worker
cleanup_and_exit w = record w {
  stage = ended 0;
  log = bye ∷ queue_unlinked ∷ close_if w.mqdes w.log;
}

abbrev pub open_queue : (opened : Bool) → Worker → Worker
open_queue true w = record { mqdes = true; stage = at_loop; log = queue_opened ∷ w.log }
open_queue false w = record { mqdes = false; stage = ended 1; log = open_refused ∷ w.log }

abbrev pub process : (prio : ℕ) → Option Text → Worker → Worker
process prio none w = record w { stage = past_end }
process prio (some text) w = record w { stage = at_print prio text }

-- Ctrl+C, once the handler is set: a task that has been received and not printed is lost.
unfoldable pub interrupt : Stage → Worker → Option Worker
interrupt at_open w = some (cleanup_and_exit w)
interrupt at_loop w = some (cleanup_and_exit w)
interrupt (at_print prio text) w = some (cleanup_and_exit w)
interrupt past_end w = none
interrupt (ended code) w = none

-- Whether a queue of that name exists: the worker makes it, and removes it.
abbrev pub linked : List Event → Bool
linked [] = false
linked (queue_opened ∷ log) = true
linked (queue_unlinked ∷ log) = false
linked (_ ∷ log) = linked log

abbrev pub waiting_start : Worker
waiting_start = record { mqdes = false; stage = at_open; log = [] }

pub record System (Q : Type 0) : Type 0 where
  pub queue : Q
  pub worker : Worker
  pub sent : List (ℕ × Text)

-- A dispatcher is started with these arguments; the worker makes a step; Ctrl+C.
pub data Action : Type 0 where
  dispatched : List Text → Action
  works : (opened : Bool) → (junk : List ℕ) → Action
  interrupted : Action

-- No argument has a NUL inside.
abbrev pub Possible : Action → Type 0
Possible (dispatched args) = All NoNul args
Possible _ = Unit

module _ {Q : Type 0} where
  abbrev pub with_report : Report × Q → System Q → System Q
  with_report (task_sent prio task, q) s = record s {
    queue = q;
    sent = s.sent ++ (prio, task) ∷ [];
  }
  with_report (report, q) s = record s { queue = q }

  abbrev pub with_worker : Option (Worker × Q) → System Q → Option (System Q)
  with_worker none s = none
  with_worker (some (w, q)) s = some (record s { queue = q; worker = w })

  abbrev pub with_interrupt : Option Worker → System Q → Option (System Q)
  with_interrupt none s = none
  with_interrupt (some w) s = some (record s { worker = w })

  -- What a fresh buffer holds is `junk`.
  abbrev pub receive_task : (junk : List ℕ) → Got Q → Worker → Q → Option (Worker × Q)
  receive_task junk waits w q = none
  receive_task junk fails w q =
      some (cleanup_and_exit (record w { log = receive_failed ∷ w.log }), q)
  receive_task junk (got prio bytes q') w q = some (process prio (null_terminate junk bytes) w, q')

module _ {Q : Type 0} (mq_receive : Q → Got Q) where
  -- A step of main; it waits where there is none.
  unfoldable pub worker_step :
      Stage → (opened : Bool) → (junk : List ℕ) → Worker → Q → Option (Worker × Q)
  worker_step at_open opened junk w q = some (open_queue opened w, q)
  worker_step at_loop opened junk w q = receive_task junk (mq_receive q) w q
  worker_step (at_print prio text) opened junk w q =
      some (record w { stage = at_loop; log = task_done prio text ∷ w.log }, q)
  worker_step past_end opened junk w q = none
  worker_step (ended code) opened junk w q = none

  -- At most `k` steps of the worker, until it waits.
  unfoldable pub worker_run : (k : ℕ) → (junk : List ℕ) → Worker → Q → Worker × Q
  worker_run zero junk w q = (w, q)
  worker_run (suc k) junk w q = elim (worker_step w.stage true junk w q) [
    | none ↦ (w, q)
    | some (w', q') ↦ worker_run k junk w' q'
  ]

module _ {Q : Type 0} (mq_send : ℕ → List ℕ → Q → Option Q) (mq_receive : Q → Got Q) where
  unfoldable pub act : Action → System Q → Option (System Q)
  act (dispatched args) s =
      some (with_report (dispatch mq_send (linked s.worker.log) args s.queue) s)
  act (works opened junk) s =
      with_worker (worker_step mq_receive s.worker.stage opened junk s.worker s.queue) s
  act interrupted s = with_interrupt (interrupt s.worker.stage s.worker) s

  -- The states that come from an empty queue `q`, before the worker's `mq_open`.
  pub data Reach (q : Q) : System Q → Type 0 where
    here : Reach q (record { queue = q; worker = waiting_start; sent = [] })
    later : {s u : System Q} → Reach q s → (a : Action) → Possible a → act a s ≡ some u → Reach q u
