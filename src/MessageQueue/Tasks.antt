-- ===== src/MessageQueue/Tasks.antt =====
-- task_dispatcher.c, and the buffer of task_worker.c. The POSIX message queue is a parameter.
use linux_exercises.Base.{
  ℕ, Bool, not, Option, none, some, List, [], ◌∷◌, ◌++◌, ltb, if◌then◌else◌, length, set,
}
use linux_exercises.Strings.{Text}
use linux_exercises.Strings.{atoi}
use linux_exercises.Strings.{c_string}

abbrev pub msgsz : ℕ
msgsz = 256

-- What `mq_receive` does on a queue: it returns a message, waits for one, or fails.
pub data Got (Q : Type 0) : Type 0 where
  got : (prio : ℕ) → List ℕ → Q → Got Q
  waits fails : Got Q

-- What the dispatcher prints, for the last of them with exit code 0, else with 1.
pub data Report : Type 0 where
  usage bad_priority open_failed send_failed : Report
  task_sent : (prio : ℕ) → Text → Report

abbrev pub tail : List ℕ → List ℕ
tail [] = []
tail (x ∷ xs) = xs

-- The buffer once `mq_receive` has written its bytes to the front.
unfoldable pub overlay : List ℕ → List ℕ → List ℕ
overlay [] js = js
overlay (b ∷ bs) js = b ∷ overlay bs (tail js)

-- `buffer[n] = '\0'`, and the text that is printed; `none` is a write past the end of the buffer.
unfoldable pub null_terminate : (junk bytes : List ℕ) → Option Text
null_terminate junk bytes =
    if ltb (length bytes) msgsz
    then some (c_string (set (overlay bytes junk) (length bytes) 0))
    else none

module _ {Q : Type 0} (mq_send : ℕ → List ℕ → Q → Option Q) where
  -- From `mq_open` on.
  unfoldable pub send_task : (opened : Bool) → (prio : ℕ) → Text → Q → Report × Q
  send_task opened prio task q =
      if not opened then (open_failed, q) else elim (mq_send prio (task ++ 0 ∷ []) q) [
        | none ↦ (send_failed, q)
        | some q' ↦ (task_sent prio task, q')
      ]

  -- `main` of the dispatcher, on its arguments behind `argv[0]`.
  unfoldable pub dispatch : (opened : Bool) → List Text → Q → Report × Q
  dispatch opened (prio_text ∷ task ∷ []) q =
      if ltb 31 (atoi prio_text)
      then (bad_priority, q)
      else send_task opened (atoi prio_text) task q
  dispatch opened args q = (usage, q)
