-- ===== src/Processes/Programs.antt =====
-- fork.c, exec.c, orphan.c and zombie.c, on what `fork`, `getenv` and `execl` return.
use linux_exercises.Base.{Bool, true, false, Option, none, some, List, [], ◌∷◌}
use linux_exercises.Processes.Family.{
  Status, Act, says, says_parent, sleeps, waits, ends, runs, child_here, parent_here, no_variable,
  will_run, exec_failed, alive, Family,
}

-- The child of exec.c: `variable` is whether `getenv` finds MY_COMMAND, and
-- `command` how the command ends, if `execl` can run it.
unfoldable pub exec_child : (variable : Bool) → (command : Option Status) → List Act
exec_child false command = says child_here ∷ says no_variable ∷ ends 1 ∷ []
exec_child true none = says child_here ∷ says will_run ∷ says exec_failed ∷ ends 1 ∷ []
exec_child true (some st) = says child_here ∷ says will_run ∷ runs st ∷ []

abbrev pub fork_child : List Act
fork_child = says child_here ∷ ends 10 ∷ []

abbrev pub fork_parent : List Act
fork_parent = says parent_here ∷ waits ∷ ends 0 ∷ []

abbrev pub exec_parent : List Act
exec_parent = says parent_here ∷ waits ∷ ends 0 ∷ []

abbrev pub orphan_child : List Act
orphan_child = says_parent ∷ sleeps ∷ says_parent ∷ ends 0 ∷ []

abbrev pub orphan_parent : List Act
orphan_parent = says parent_here ∷ ends 0 ∷ []

abbrev pub zombie_child : List Act
zombie_child = says_parent ∷ ends 0 ∷ []

abbrev pub zombie_parent : List Act
zombie_parent = says parent_here ∷ sleeps ∷ ends 0 ∷ []

pub data Program : Type 0 where
  fork_c orphan_c zombie_c : Program
  exec_c : (variable : Bool) → (command : Option Status) → Program

unfoldable pub child_of : Program → List Act
child_of fork_c = fork_child
child_of (exec_c variable command) = exec_child variable command
child_of orphan_c = orphan_child
child_of zombie_c = zombie_child

unfoldable pub parent_of : Program → List Act
parent_of fork_c = fork_parent
parent_of (exec_c variable command) = exec_parent
parent_of orphan_c = orphan_parent
parent_of zombie_c = zombie_parent

abbrev pub start : Program → Family
start m = record { parent = alive (parent_of m); child = alive (child_of m); log = [] }

-- `main` once `fork` has returned; `none` is its failure, which is reported and ends the program.
unfoldable pub forked : (ok : Bool) → Program → Option Family
forked false m = none
forked true m = some (start m)
