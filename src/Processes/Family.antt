-- ===== src/Processes/Family.antt =====
-- What fork.c, exec.c, orphan.c and zombie.c have in common: a parent and its child, each a list of what
-- it is to do, with `wait`, the exit status and the process that takes the place of a lost parent.
use linux_exercises.Base.{ℕ, Bool, true, false, Option, none, some, List, [], ◌∷◌}

-- How a process has ended: by `exit` or a return from main, or by a signal.
pub data Status : Type 0 where
  exited : (code : ℕ) → Status
  signalled : Status

-- `parent_is` has whether `getppid` still gives the parent.
pub data Line : Type 0 where
  child_here parent_here no_variable will_run exec_failed : Line
  parent_is : (first : Bool) → Line
  status_is : (code : ℕ) → Line

-- `runs` is a successful `execl`, with the end of the program that it runs.
pub data Act : Type 0 where
  says : Line → Act
  says_parent sleeps waits : Act
  ends : (code : ℕ) → Act
  runs : Status → Act

-- A zombie has ended and has not been waited for.
pub data Process : Type 0 where
  alive : List Act → Process
  zombie : Status → Process
  gone : Process

-- The latest line stands first.
pub record Family : Type 0 where
  pub parent : Process
  pub child : Process
  pub log : List Line

abbrev pub to_log : Line → Family → Family
to_log l f = record f { log = l ∷ f.log }

-- `if(WIFEXITED(status)) printf(...)`
abbrev pub report : Status → List Line → List Line
report (exited code) log = status_is code ∷ log
report signalled log = log

-- A child that has ended goes with its parent.
abbrev pub adopt : Process → Process
adopt (zombie st) = gone
adopt (alive cs) = alive cs
adopt gone = gone

abbrev pub parent_ends : Family → Family
parent_ends f = record f { parent = gone; child = adopt f.child }

abbrev pub wait : Process → List Act → Family → Option Family
wait (alive cs) ps f = none
wait (zombie st) ps f = some (record { parent = alive ps; child = gone; log = report st f.log })
wait gone ps f = some (record f { parent = alive ps })

unfoldable pub parent_step : List Act → Family → Option Family
parent_step [] f = some (parent_ends f)
parent_step (says l ∷ ps) f = some (to_log l (record f { parent = alive ps }))
parent_step (says_parent ∷ ps) f = some (record f { parent = alive ps })
parent_step (sleeps ∷ ps) f = some (record f { parent = alive ps })
parent_step (waits ∷ ps) f = wait f.child ps f
parent_step (ends code ∷ ps) f = some (parent_ends f)
parent_step (runs st ∷ ps) f = some (parent_ends f)

abbrev pub is_alive : Process → Bool
is_alive (alive ps) = true
is_alive _ = false

-- Without its parent, the child is waited for at once.
abbrev pub ended_child : Process → Status → Process
ended_child (alive ps) st = zombie st
ended_child _ st = gone

unfoldable pub child_step : List Act → Family → Option Family
child_step [] f = some (record f { child = ended_child f.parent (exited 0) })
child_step (says l ∷ cs) f = some (to_log l (record f { child = alive cs }))
child_step (says_parent ∷ cs) f =
    some (to_log (parent_is (is_alive f.parent)) (record f { child = alive cs }))
child_step (sleeps ∷ cs) f = some (record f { child = alive cs })
child_step (waits ∷ cs) f = some (record f { child = alive cs })
child_step (ends code ∷ cs) f = some (record f { child = ended_child f.parent (exited code) })
child_step (runs st ∷ cs) f = some (record f { child = ended_child f.parent st })

abbrev pub of_parent : Process → Family → Option Family
of_parent (alive ps) f = parent_step ps f
of_parent _ f = none

abbrev pub of_child : Process → Family → Option Family
of_child (alive cs) f = child_step cs f
of_child _ f = none

-- The parent's turn, or the child's.
unfoldable pub turn : (of_the_parent : Bool) → Family → Option Family
turn true f = of_parent f.parent f
turn false f = of_child f.child f
